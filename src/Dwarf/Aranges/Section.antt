-- ===== src/Dwarf/Aranges/Section.antt =====
-- A section written from units of ranges is parsed into these ranges.
use mathlib.Core.List.{append_assoc}
use native.Mathlib.Nat.{one-le-pow}
use ine_debugger.Prelude.{ℕ, zero, suc, ◌+◌, ◌*◌, ◌^◌, ◌<◌, ◌≤◌, ◌≡◌, ◌∙◌, arith}
use ine_debugger.Prelude.{true, false, some, List, [], ◌∷◌, ◌++◌, length, drop, All, map}
use ine_debugger.Prelude.{length-append, leb}
use ine_debugger.Prelude.Word.{add32}
use ine_debugger.Dwarf.Program.{done}
use ine_debugger.Dwarf.Aranges.{entry_at, count_entries, fill_entries, is_end, range_of}
use ine_debugger.Dwarf.Aranges.Encoded.{entry_bytes, Fits, entry_at-entry_bytes, length-entry_bytes}

-- The entries of a unit, and the empty one behind them.
abbrev pub entries_bytes : ℕ → ℕ → List (ℕ × ℕ × ℕ) → List ℕ
entries_bytes a s [] = entry_bytes a s (0, 0, 0)
entries_bytes a s (e ∷ es) = entry_bytes a s e ++ entries_bytes a s es

-- An entry that is not the empty one.
abbrev pub IsEntry : ℕ → ℕ → ℕ × ℕ × ℕ → Type 0
IsEntry a s e = Fits a s e × (is_end e ≡ false)

pub length-entries_bytes :
    (a s : ℕ) (es : List (ℕ × ℕ × ℕ))
    → length (entries_bytes a s es) ≡ (length es + 1) * (a + s + a)
length-entries_bytes a s [] = omega (arith, length-entry_bytes a s (0, 0, 0))
length-entries_bytes a s (e ∷ es) = omega (
  arith,
  length-append (entry_bytes a s e) (entries_bytes a s es),
  length-entry_bytes a s e,
  length-entries_bytes a s es,
)

empty-Fits : (a s : ℕ) → Fits a s (0, 0, 0)
empty-Fits a s = (
  omega (arith, one-le-pow a 256),
  omega arith,
  omega (arith, one-le-pow s 256),
  omega arith,
  omega (arith, one-le-pow a 256),
  omega arith,
)

-- Entries that stand at `p` up to the end of their unit.
abbrev pub Ready : List ℕ → ℕ → ℕ → List (ℕ × ℕ × ℕ) → ℕ → ℕ → List ℕ → Type 0
Ready mem a s es p unit_end rest =
    All (IsEntry a s) es
    × (drop p mem ≡ entries_bytes a s es ++ rest)
    × (unit_end ≡ p + (length es + 1) * (a + s + a))
    × (unit_end < 2 ^ 32)

next-Ready :
    (mem : List ℕ) (a s : ℕ) (e : ℕ × ℕ × ℕ) (es : List (ℕ × ℕ × ℕ)) (p unit_end : ℕ)
    (rest : List ℕ)
    → Ready mem a s (e ∷ es) p unit_end rest
    → (entry_at mem a s p ≡ some e)
      × (is_end e ≡ false)
      × (leb (p + (a + s + a)) unit_end ≡ true)
      × (add32 p (a + s + a) ≡ p + (a + s + a))
      × Ready mem a s es (p + (a + s + a)) unit_end rest
next-Ready mem a s e es p unit_end rest (((fits, more), oks), d, end_at, small) =
    let (at, d') =
      entry_at-entry_bytes mem p a s e (entries_bytes a s es ++ rest)
        (d ∙ append_assoc (entry_bytes a s e) (entries_bytes a s es) rest) fits in
    let inside : p + (a + s + a) ≤ unit_end = omega arith in
    (at, more, ground arith, omega arith, (oks, d', omega arith, small))

pub count_entries-entries_bytes :
    (es : List (ℕ × ℕ × ℕ)) (fuel : ℕ) (mem : List ℕ) (a s p unit_end : ℕ) (rest : List ℕ)
    → Ready mem a s es p unit_end rest
    → length es < fuel
    → count_entries fuel mem a s p unit_end ≡ done (length es)
unfolding count_entries
count_entries-entries_bytes es zero mem a s p unit_end rest ready lt = absurd (omega arith)
count_entries-entries_bytes [] (suc fuel) mem a s p unit_end rest (ok, d, end_at, small) lt =
    let (at, d') = entry_at-entry_bytes mem p a s (0, 0, 0) rest d (empty-Fits a s) in
    let inside : leb (add32 p (a + s + a)) unit_end ≡ true = ground arith in
    ground (arith, at, inside)
count_entries-entries_bytes (e ∷ es) (suc fuel) mem a s p unit_end rest ready lt =
    let (at, more, inside, here, ready') = next-Ready mem a s e es p unit_end rest ready in
    let ih =
      count_entries-entries_bytes es fuel mem a s (p + (a + s + a)) unit_end rest ready'
        (omega arith) in
    ground (arith, at, more, inside, here, ih)

pub fill_entries-entries_bytes :
    (es : List (ℕ × ℕ × ℕ)) (fuel : ℕ) (mem : List ℕ) (a s p unit_end room : ℕ) (rest : List ℕ)
    → Ready mem a s es p unit_end rest
    → length es < fuel
    → length es ≤ room
    → fill_entries fuel mem a s p unit_end room ≡ done (map range_of es)
unfolding fill_entries
fill_entries-entries_bytes es zero mem a s p unit_end room rest ready lt le = absurd (omega arith)
fill_entries-entries_bytes [] (suc fuel) mem a s p unit_end room rest (ok, d, end_at, small) lt le =
    let (at, d') = entry_at-entry_bytes mem p a s (0, 0, 0) rest d (empty-Fits a s) in
    ground (arith, at)
fill_entries-entries_bytes (e ∷ es) (suc fuel) mem a s p unit_end zero rest ready lt le =
    absurd (omega arith)
fill_entries-entries_bytes (e ∷ es) (suc fuel) mem a s p unit_end (suc room) rest ready lt le =
    let (at, more, inside, here, ready') = next-Ready mem a s e es p unit_end rest ready in
    let ih =
      fill_entries-entries_bytes es fuel mem a s (p + (a + s + a)) unit_end room rest ready'
        (omega arith) (omega arith) in
    ground (arith, at, more, inside, here, ih)
