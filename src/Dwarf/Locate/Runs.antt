-- ===== src/Dwarf/Locate/Runs.antt =====
-- The theorems on the searches at concrete files.
use ine_debugger.Prelude.{ℕ, ◌≡◌, refl, arith, none, some, List, [], ◌∷◌, ◌++◌, replicate}
use ine_debugger.Dwarf.Bytes.{read_u16_le, read_u32_le}
use ine_debugger.Dwarf.Locate.{find_elf_debug_ne, find_elf_debug_lx, memcmp_equal}
use ine_debugger.Dwarf.Locate.Trailer.{find_elf_debug_ne_outside}
use ine_debugger.Dwarf.Locate.Header.{find_elf_debug_lx_outside}

abbrev file : List ℕ
file = 127 ∷ 69 ∷ 76 ∷ 70 ∷ 84 ∷ 73 ∷ 83 ∷ 0 ∷ 0 ∷ 0 ∷ 0 ∷ 0 ∷ 0 ∷ 0 ∷ 0 ∷ 0 ∷ 20 ∷ 0 ∷ 0 ∷ 0 ∷ []

start : find_elf_debug_ne file ≡ some (some 0)
unfolding find_elf_debug_ne read_u32_le
start = refl

-- A header 16 bytes before the end of the file.
abbrev short_file : List ℕ
short_file = replicate 60 0 ++ (64 ∷ 0 ∷ 0 ∷ 0 ∷ 76 ∷ 88 ∷ replicate 14 0)

header_offset : read_u16_le short_file 0x3c ≡ some 64
unfolding read_u16_le
header_offset = refl

short_file_run : find_elf_debug_lx short_file ≡ none
short_file_run =
    find_elf_debug_lx_outside short_file 64 (omega arith) header_offset (omega arith) (omega arith)
      (omega arith) refl refl

-- A trailer that says one byte.
abbrev one_byte_file : List ℕ
one_byte_file = 84 ∷ 73 ∷ 83 ∷ 0 ∷ 0 ∷ 0 ∷ 0 ∷ 0 ∷ 0 ∷ 0 ∷ 0 ∷ 0 ∷ 1 ∷ 0 ∷ 0 ∷ 0 ∷ []

one_byte_run : find_elf_debug_ne one_byte_file ≡ none
unfolding memcmp_equal read_u32_le
one_byte_run =
    find_elf_debug_ne_outside one_byte_file 1 (omega arith) (omega arith) refl refl (omega arith)
      (omega arith)
