-- ===== src/Dwarf/Locate.antt =====
-- dwarf_info.c: where the debug information starts in a file (find_elf_debug_ne,
-- find_elf_debug_lx). `none` is a read past the end of the file, `some none` is -1.
pub mod Trailer
pub mod Header
mod Runs
use ine_debugger.Prelude.{ℕ, zero, suc, ◌+◌, ◌-◌, ◌%◌, ◌^◌}
use ine_debugger.Prelude.{Bool, true, false, ◌&&◌, ◌||◌, not, Option, none, some, List, [], ◌∷◌}
use ine_debugger.Prelude.{ltb, leb, ◌==◌, if◌then◌else◌, get_elem?, length}
use ine_debugger.Prelude.Word.{u32}
use ine_debugger.Dwarf.Bytes.{◌>>=◌, read_u16_le, read_u32_le}

-- `memcmp(file + p, expected, ...) == 0`: all the bytes compared must be readable.
unfoldable pub memcmp_equal : List ℕ → ℕ → List ℕ → Option Bool
memcmp_equal file p [] = some true
memcmp_equal file p (e ∷ es) =
    let further = memcmp_equal file (p + 1) es in
    get_elem? file p >>= λ b. further >>= λ same. some (b == e && same)

-- "\x7f" "ELF"
abbrev pub elf_magic : List ℕ
elf_magic = 127 ∷ 69 ∷ 76 ∷ 70 ∷ []

-- "TIS"
abbrev pub tis_magic : List ℕ
tis_magic = 84 ∷ 73 ∷ 83 ∷ []

-- The last test of both functions: an ELF header at the offset found.
abbrev pub verified : List ℕ → ℕ → Option (Option ℕ)
verified file at = memcmp_equal file at elf_magic >>= λ same. some (if same then some at else none)

unfoldable pub find_elf_debug_ne : List ℕ → Option (Option ℕ)
unfolding memcmp_equal
find_elf_debug_ne file =
    let file_size = length file in
    if ltb file_size 16
    then some none
    else (memcmp_equal file (file_size - 16) tis_magic >>= λ tis.
        if not tis
        then some none
        else (read_u32_le file (file_size - 16 + 12) >>= λ info_size.
            if info_size == 0 || ltb (u32 file_size) info_size
            then some none
            else verified file (file_size - info_size)))

unfoldable pub find_elf_debug_lx : List ℕ → Option (Option ℕ)
unfolding memcmp_equal
find_elf_debug_lx file =
    let file_size = length file in
    if ltb file_size 64
    then some none
    else (read_u16_le file 0x3c >>= λ hdr.
        if hdr == 0 || leb (file_size - 4) hdr
        then some none
        else (get_elem? file hdr >>= λ l. get_elem? file (hdr + 1) >>= λ x.
            if not (l == 76) || (not (x == 88) && not (x == 69))
            then some none
            else (read_u32_le file (hdr + 0x70) >>= λ dbg_off.
                read_u32_le file (hdr + 0x74) >>= λ dbg_len.
                if dbg_off == 0 || dbg_len == 0 || leb (u32 file_size) dbg_off
                then some none
                else verified file dbg_off)))
