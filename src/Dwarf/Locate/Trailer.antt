-- ===== src/Dwarf/Locate/Trailer.antt =====
-- find_elf_debug_ne: which files it reads inside of.
use ine_debugger.Prelude.{ℕ, zero, suc, ◌+◌, ◌-◌, ◌<◌, ◌≤◌, ◌≡◌, refl, arith, inl, inr}
use ine_debugger.Prelude.{true, false, ◌||◌, none, some, List, [], ◌∷◌}
use ine_debugger.Prelude.{ltb, ◌==◌, get_elem?, length, Bool-cases}
use ine_debugger.Prelude.Word.{u32, IsU32}
use ine_debugger.Dwarf.Bytes.{read_u32_le}
use ine_debugger.Dwarf.Locate.{memcmp_equal, find_elf_debug_ne, elf_magic, tis_magic}
use ine_debugger.Unpack.Memory.{get_elem?-lt}

pub past_end : (file : List ℕ) (i : ℕ) → length file ≤ i → get_elem? file i ≡ none
past_end [] i le = refl
past_end (b ∷ bs) zero le = absurd (omega arith)
past_end (b ∷ bs) (suc i) le = past_end bs i (omega arith)

-- One that goes on past the end leaves it.
compare_outside :
    (file : List ℕ) (p : ℕ) (expected : List ℕ)
    → length file < p + length expected
    → p ≤ length file
    → memcmp_equal file p expected ≡ none
unfolding memcmp_equal
compare_outside file p [] short le = absurd (omega (arith, short, le))
compare_outside file p (e ∷ es) short le = elim (Bool-cases (ltb p (length file))) [
  | inl inside ↦
      let (b, at) = get_elem?-lt file p (ground (arith, inside)) in
      rw (at, compare_outside file (p + 1) es (omega (arith, short)) (ground (arith, inside))) refl
  | inr past ↦ let nothing = past_end file p (ground (arith, past)) in rw nothing refl
]

-- With a trailer that says 1 to 3 bytes, the comparison with an ELF header goes on past the end.
pub find_elf_debug_ne_outside :
    (file : List ℕ) (info : ℕ)
    → IsU32 (length file)
    → 16 ≤ length file
    → memcmp_equal file (length file - 16) tis_magic ≡ some true
    → read_u32_le file (length file - 16 + 12) ≡ some info
    → 0 < info
    → info < 4
    → find_elf_debug_ne file ≡ none
unfolding find_elf_debug_ne
find_elf_debug_ne_outside file info size long trailer word pos few =
    let at_least : ltb (length file) 16 ≡ false = ground (arith, long) in
    let in_file : (info == 0 || ltb (u32 (length file)) info) ≡ false =
      ground (arith, size, long, pos, few) in
    let past =
      compare_outside file (length file - info) elf_magic (omega (arith, long, pos, few))
        (omega (arith, long)) in
    rw (at_least, trailer, word, in_file, past) refl
