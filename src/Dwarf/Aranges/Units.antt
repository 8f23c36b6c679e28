-- ===== src/Dwarf/Aranges/Units.antt =====
-- A whole section of units is parsed into the ranges of all its units.
use mathlib.Core.List.{append_assoc}
use mathlib.Core.Path.{subst}
use ine_debugger.Prelude.{ℕ, zero, suc, ◌+◌, ◌-◌, ◌*◌, ◌^◌, ◌<◌, ◌≤◌, ◌≡◌, refl, ap, ◌∙◌, arith}
use ine_debugger.Prelude.{some, List, [], ◌∷◌, ◌++◌, length, drop, All, map}
use ine_debugger.Prelude.{length-append}
use ine_debugger.Prelude.Word.{add32, IsByte}
use ine_debugger.Dwarf.Program.{done}
use ine_debugger.Dwarf.Program.Ops.{le32}
use ine_debugger.Prelude.{drop_cons, drop_append}
use ine_debugger.Dwarf.Program.Encoded.{u32_at}
use ine_debugger.Dwarf.Lookup.{Range}
use ine_debugger.Dwarf.Aranges.{
  count_entries, fill_entries, count_ranges, fill_ranges, unit_head, range_of, parse_debug_aranges,
}
use ine_debugger.Dwarf.Aranges.Section.{entries_bytes, IsEntry, length-entries_bytes, Ready}
use ine_debugger.Dwarf.Aranges.Section.{count_entries-entries_bytes, fill_entries-entries_bytes}

-- A unit: the widths of its fields, and its entries.
pub record RangeUnit : Type 0 where
  pub addr_size : ℕ
  pub seg_size : ℕ
  pub entries : List (ℕ × ℕ × ℕ)

abbrev pub total_length : RangeUnit → ℕ
total_length u = 8 + (length u.entries + 1) * (u.addr_size + u.seg_size + u.addr_size)

-- The version, the offset into .debug_info and the sizes follow the length.
abbrev pub unit_bytes : RangeUnit → List ℕ
unit_bytes u =
    le32 (total_length u)
    ++ (2
        ∷ 0
        ∷ 0
        ∷ 0
        ∷ 0
        ∷ 0
        ∷ u.addr_size
        ∷ u.seg_size
        ∷ entries_bytes u.addr_size u.seg_size u.entries)

abbrev pub section_bytes : List RangeUnit → List ℕ
section_bytes [] = []
section_bytes (u ∷ us) = unit_bytes u ++ section_bytes us

abbrev pub IsUnit : ℕ → RangeUnit → Type 0
IsUnit steps u =
    IsByte u.addr_size
    × IsByte u.seg_size
    × All (IsEntry u.addr_size u.seg_size) u.entries
    × (length u.entries < steps)

abbrev pub section_ranges : List RangeUnit → List Range
section_ranges [] = []
section_ranges (u ∷ us) = map range_of u.entries ++ section_ranges us

length-unit_bytes : (u : RangeUnit) → length (unit_bytes u) ≡ 4 + total_length u
length-unit_bytes u = omega (arith, length-entries_bytes u.addr_size u.seg_size u.entries)

-- The head and the entries of the unit at `p`, with the rest of the section behind it.
Opened : List ℕ → ℕ → RangeUnit → List ℕ → Type 0
Opened mem p u rest =
    (unit_head mem p ≡ some (total_length u, u.addr_size, u.seg_size))
    × Ready mem u.addr_size u.seg_size u.entries (p + 12) (p + (4 + total_length u)) rest
    × (drop (p + (4 + total_length u)) mem ≡ rest)

open_unit :
    (steps : ℕ) (mem : List ℕ) (p : ℕ) (u : RangeUnit) (rest : List ℕ)
    → IsUnit steps u
    → drop p mem ≡ unit_bytes u ++ rest
    → p + (4 + total_length u) < 2 ^ 32
    → Opened mem p u rest
unfolding Opened unit_head
open_unit steps mem p u rest (ha, hs, ok, few) d small =
    let len = u32_at mem p (total_length u) _ (omega arith) d in
    let (b4, d4) = drop_cons mem (p + 4) _ _ (drop_append (le32 (total_length u)) mem p _ d) in
    let (b5, d5) = drop_cons mem (p + 4 + 1) _ _ d4 in
    let (b6, d6) = drop_cons mem (p + 4 + 1 + 1) _ _ d5 in
    let (b7, d7) = drop_cons mem (p + 4 + 1 + 1 + 1) _ _ d6 in
    let (b8, d8) = drop_cons mem (p + 4 + 1 + 1 + 1 + 1) _ _ d7 in
    let (b9, d9) = drop_cons mem (p + 4 + 1 + 1 + 1 + 1 + 1) _ _ d8 in
    let (b10, d10) = drop_cons mem (p + 4 + 1 + 1 + 1 + 1 + 1 + 1) _ _ d9 in
    let (b11, d11) = drop_cons mem (p + 4 + 1 + 1 + 1 + 1 + 1 + 1 + 1) _ _ d10 in
    let entries_start : p + 12 ≡ p + 4 + 1 + 1 + 1 + 1 + 1 + 1 + 1 + 1 = omega arith in
    (
      ground (arith, len, b10, b11),
      (ok, rw entries_start d11, omega arith, small),
      subst (λ (t : ℕ). drop (p + t) mem ≡ rest) (length-unit_bytes u)
          (drop_append (unit_bytes u) mem p rest d),
    )

-- A section of units in memory, whose inner loops have the fuel `steps`.
abbrev pub Holds : ℕ → List ℕ → ℕ → ℕ → List RangeUnit → List ℕ → Type 0
Holds steps mem p stop units rest =
    All (IsUnit steps) units
    × (drop p mem ≡ section_bytes units ++ rest)
    × (stop ≡ p + length (section_bytes units))
    × (stop + 12 < 2 ^ 32)

next-Holds :
    (steps : ℕ) (mem : List ℕ) (p stop : ℕ) (u : RangeUnit) (us : List RangeUnit) (rest : List ℕ)
    → Holds steps mem p stop (u ∷ us) rest
    → Opened mem p u (section_bytes us ++ rest)
      × (p + (4 + total_length u) ≤ stop)
      × Holds steps mem (p + (4 + total_length u)) stop us rest
unfolding Opened
next-Holds steps mem p stop u us rest ((ok, oks), d, end_at, small) =
    let sizes = length-append (unit_bytes u) (section_bytes us) in
    let here = d ∙ append_assoc (unit_bytes u) (section_bytes us) rest in
    let size = length-unit_bytes u in
    let inside : p + (4 + total_length u) ≤ stop = omega (arith, sizes, size) in
    let opened =
      open_unit steps mem p u (section_bytes us ++ rest) ok here (omega (arith, inside)) in
    (opened, inside, (oks, opened.2, omega (arith, sizes, size), small))

length-map {ℓ κ} :
    {A : Type ℓ} {B : Type κ} (f : A → B) (xs : List A) → length (map f xs) ≡ length xs
length-map f [] = refl
length-map f (x ∷ xs) = ap suc (length-map f xs)

length_zero {ℓ} : {A : Type ℓ} (xs : List A) → length xs ≤ 0 → xs ≡ []
length_zero [] h = refl
length_zero (x ∷ xs) h = absurd (omega arith)

-- A unit of any length in front of the units that follow.
count_unit :
    (steps fuel : ℕ) (mem : List ℕ) (p stop total a s n m : ℕ)
    → unit_head mem p ≡ some (total, a, s)
    → 8 ≤ total
    → p + (4 + total) ≤ stop
    → stop + 12 < 2 ^ 32
    → count_entries steps mem a s (p + 12) (p + (4 + total)) ≡ done n
    → count_ranges steps fuel mem (p + (4 + total)) stop ≡ done m
    → count_ranges steps (suc fuel) mem p stop ≡ done (n + m)
unfolding count_ranges
count_unit steps fuel mem p stop total a s n m head big inside small here further =
    let at12 : add32 p 12 ≡ p + 12 = omega arith in
    let at_end : add32 p (4 + total) ≡ p + (4 + total) = omega arith in
    ground (arith, head, at12, at_end, here, further)

fill_unit :
    (steps fuel : ℕ) (mem : List ℕ) (p stop total a s room : ℕ) (ranges ranges' : List Range)
    → unit_head mem p ≡ some (total, a, s)
    → 8 ≤ total
    → p + (4 + total) ≤ stop
    → stop + 12 < 2 ^ 32
    → fill_entries steps mem a s (p + 12) (p + (4 + total)) (suc room) ≡ done ranges
    → fill_ranges steps fuel mem (p + (4 + total)) stop (suc room - length ranges) ≡ done ranges'
    → fill_ranges steps (suc fuel) mem p stop (suc room) ≡ done (ranges ++ ranges')
unfolding fill_ranges
fill_unit steps fuel mem p stop total a s room ranges ranges' head big inside small here further =
    let at12 : add32 p 12 ≡ p + 12 = omega arith in
    let at_end : add32 p (4 + total) ≡ p + (4 + total) = omega arith in
    ground (arith, head, at12, at_end, here, further)

count_ranges-section_bytes :
    (units : List RangeUnit) (steps fuel : ℕ) (mem : List ℕ) (p stop : ℕ) (rest : List ℕ)
    → Holds steps mem p stop units rest
    → length units < fuel
    → count_ranges steps fuel mem p stop ≡ done (length (section_ranges units))
unfolding count_ranges Opened
count_ranges-section_bytes units steps zero mem p stop rest holds lt = absurd (omega arith)
count_ranges-section_bytes [] steps (suc fuel) mem p stop rest (ok, d, end_at, small) lt =
    ground arith
count_ranges-section_bytes (u ∷ us) steps (suc fuel) mem p stop rest holds lt =
    let ((head, ready, d), inside, holds') = next-Holds steps mem p stop u us rest holds in
    let here =
      count_entries-entries_bytes u.entries steps mem u.addr_size u.seg_size (p + 12)
        (p + (4 + total_length u)) (section_bytes us ++ rest) ready holds.0.0.3 in
    let ih =
      count_ranges-section_bytes us steps fuel mem (p + (4 + total_length u)) stop rest holds'
        (omega arith) in
    rw (length-append (map range_of u.entries) (section_ranges us), length-map range_of u.entries)
      (count_unit steps fuel mem p stop (total_length u) u.addr_size u.seg_size (length u.entries)
        (length (section_ranges us)) head (omega arith) inside holds.3 here ih)

fill_ranges-section_bytes :
    (units : List RangeUnit) (steps fuel : ℕ) (mem : List ℕ) (p stop room : ℕ) (rest : List ℕ)
    → Holds steps mem p stop units rest
    → length units < fuel
    → length (section_ranges units) ≤ room
    → fill_ranges steps fuel mem p stop room ≡ done (section_ranges units)
unfolding Opened fill_ranges
fill_ranges-section_bytes units steps zero mem p stop room rest holds lt le = absurd (omega arith)
fill_ranges-section_bytes [] steps (suc fuel) mem p stop room rest (ok, d, end_at, small) lt le =
    ground arith
fill_ranges-section_bytes (u ∷ us) steps (suc fuel) mem p stop zero rest holds lt le =
    ground (arith, length_zero (section_ranges (u ∷ us)) le)
fill_ranges-section_bytes (u ∷ us) steps (suc fuel) mem p stop (suc room) rest holds lt le =
    let ((head, ready, d), inside, holds') = next-Holds steps mem p stop u us rest holds in
    let sum = length-append (map range_of u.entries) (section_ranges us) in
    let count = length-map range_of u.entries in
    let here =
      fill_entries-entries_bytes u.entries steps mem u.addr_size u.seg_size (p + 12)
        (p + (4 + total_length u)) (suc room) (section_bytes us ++ rest) ready holds.0.0.3
        (omega (arith, sum, count)) in
    let ih =
      fill_ranges-section_bytes us steps fuel mem (p + (4 + total_length u)) stop
        (suc room - length (map range_of u.entries)) rest holds' (omega arith)
        (omega (arith, sum)) in
    fill_unit steps fuel mem p stop (total_length u) u.addr_size u.seg_size room
      (map range_of u.entries) (section_ranges us) head (omega arith) inside holds.3 here ih

both_passes :
    (steps fuel : ℕ) (mem : List ℕ) (start size : ℕ) (ranges : List Range)
    → 12 ≤ size
    → start + size < 2 ^ 32
    → count_ranges steps fuel mem start (start + size) ≡ done (length ranges)
    → fill_ranges steps fuel mem start (start + size) (length ranges) ≡ done ranges
    → parse_debug_aranges steps fuel mem start size ≡ done ranges
unfolding parse_debug_aranges
both_passes steps fuel mem start size [] big small counted filled =
    let at : add32 start size ≡ start + size = omega arith in ground (arith, at, counted)
both_passes steps fuel mem start size (r ∷ rs) big small counted filled =
    let at : add32 start size ≡ start + size = omega arith in ground (arith, at, counted, filled)

-- Where a section written from units stands in memory, with less than a fuel of entries in each
-- unit and of units, it is parsed into the ranges of all its units, in their order.
pub parse_debug_aranges-section_bytes :
    (units : List RangeUnit) (steps fuel : ℕ) (mem : List ℕ) (start : ℕ) (rest : List ℕ)
    → Holds steps mem start (start + length (section_bytes units)) units rest
    → length units < fuel
    → parse_debug_aranges steps fuel mem start (length (section_bytes units))
      ≡ done (section_ranges units)
unfolding parse_debug_aranges
parse_debug_aranges-section_bytes [] steps fuel mem start rest holds lt = ground arith
parse_debug_aranges-section_bytes (u ∷ us) steps fuel mem start rest holds lt =
    let counted = count_ranges-section_bytes (u ∷ us) steps fuel mem start _ rest holds lt in
    let filled =
      fill_ranges-section_bytes (u ∷ us) steps fuel mem start _ (length (section_ranges (u ∷ us)))
        rest holds lt (omega arith) in
    both_passes steps fuel mem start (length (section_bytes (u ∷ us))) (section_ranges (u ∷ us))
      (omega arith) (omega (arith, holds.3)) counted filled
