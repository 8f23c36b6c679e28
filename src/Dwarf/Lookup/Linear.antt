-- ===== src/Dwarf/Lookup/Linear.antt =====
-- What dwarf_linear_to_line answers.
use ine_debugger.Prelude.{ℕ, ◌-◌, ◌/◌, ◌≤◌, ◌≡◌, refl, sym, ap, arith, ◌⊎◌, inl, inr}
use ine_debugger.Prelude.{
  Bool, true, false, ◌&&◌, ◌||◌, not, Option, none, some, List, [], ◌∷◌, length,
}
use ine_debugger.Prelude.{ltb, leb, ◌==◌, Bool-cases, Option-cases, get_elem?}
use mathlib.Core.Path.{subst}
use ine_debugger.Dwarf.Lookup.{
  DwarfInfo, Name, Range, SharedState, in_range, find_range, any_segment,
}
use ine_debugger.Dwarf.Lookup.{
  place_in, ne_place, lx_max_ldt_slots, dwarf_addr_to_line, dwarf_linear_to_line,
}

-- A range of the list has this segment and contains this offset.
abbrev pub Contained : ℕ → ℕ → List Range → Type 0
Contained segment offset [] = ⊥
Contained segment offset (range ∷ rest) =
    ((range.segment ≡ segment) × (in_range offset range ≡ true)) ⊎ Contained segment offset rest

find_range-Contained :
    (ok : Range → Bool) (offset : ℕ) (ranges : List Range) (range : Range)
    → find_range ok offset ranges ≡ some range
    → Contained range.segment offset ranges × (ok range ≡ true)
unfolding find_range
find_range-Contained ok offset [] range e = absurd (ground (arith, e))
find_range-Contained ok offset (x ∷ xs) range e = elim (Bool-cases (ok x && in_range offset x)) [
  | inl here ↦
      let same : x ≡ range = ground (arith, e, here) in
      let okay : ok x ≡ true = ground (arith, here) in
      (inl (ap (λ (r : Range). r.segment) same, ground (arith, here)), rw same at okay)
  | inr skipped ↦
      let (c, k) = find_range-Contained ok offset xs range (ground (arith, e, skipped)) in
      (inr c, k)
]

-- An answer in the terms of the segment and offset that come with it.
abbrev pub Answers : DwarfInfo → ℕ → ℕ × Option Name → ℕ → ℕ → Type 0
Answers info at found segment offset =
    (offset ≡ at)
    × Contained segment offset info.ranges
    × (dwarf_addr_to_line info segment offset ≡ some found)

place_in-found :
    (info : DwarfInfo) (segment offset segment' offset' : ℕ) (found : ℕ × Option Name)
    → place_in info segment offset ≡ some (found, segment', offset')
    → (segment ≡ segment')
      × (offset ≡ offset')
      × (dwarf_addr_to_line info segment offset ≡ some found)
place_in-found info segment offset segment' offset' found e =
    elim (Option-cases (dwarf_addr_to_line info segment offset)) [
      | inl nothing ↦ absurd (ground (arith, e, nothing))
      | inr (found', line) ↦
          (ground (arith, e, line), ground (arith, e, line), ground (arith, e, line))
    ]

any_segment-Answers :
    (info : DwarfInfo) (a segment offset : ℕ) (found : ℕ × Option Name)
    → any_segment info a ≡ some (found, segment, offset)
    → Answers info a found segment offset
any_segment-Answers info a segment offset found e =
    elim (Option-cases (find_range (λ range. true) a info.ranges)) [
      | inl nothing ↦ absurd (ground (arith, e, nothing))
      | inr (range, first) ↦
          let (c, k) = find_range-Contained (λ r. true) a info.ranges range first in
          let (s, o, line) =
            place_in-found info range.segment a segment offset found (ground (arith, e, first)) in
          (sym o, rw (s, o) at c, rw (s, o) at line)
    ]

moved :
    (info : DwarfInfo) {a s segment segment' offset : ℕ} {found : ℕ × Option Name}
    → segment' ≡ segment
    → s ≡ segment
    → a ≡ offset
    → Contained segment' a info.ranges
    → dwarf_addr_to_line info s a ≡ some found
    → Answers info a found segment offset
moved info {segment' = segment'} {offset = offset} e s o c line = (
  sym o,
  subst (λ (t : ℕ). Contained t offset info.ranges) e
      (subst (λ (t : ℕ). Contained segment' t info.ranges) o c),
  rw (s, o) at line,
)

ne_place-Answers :
    (info : DwarfInfo) (base ne_seg a segment offset : ℕ) (found : ℕ × Option Name)
    → ne_place info base ne_seg a ≡ some (found, segment, offset)
    → (base ≤ a) × Answers info (a - base) found segment offset
unfolding ne_place
ne_place-Answers info base ne_seg a segment offset found e =
    elim (Bool-cases (base == 0 || ltb a base)) [
      | inl bad ↦ absurd (ground (arith, e, bad))
      | inr good ↦
          let below : base ≤ a = ground (arith, good) in
          elim (Bool-cases (ne_seg == 0)) [
            | inl unknown ↦ (
              below,
              any_segment-Answers info (a - base) segment offset found
                  (ground (arith, e, good, unknown)),
            )
            | inr known ↦
                elim (Option-cases
                  (find_range (λ range. range.segment == ne_seg) (a - base) info.ranges)) [
                    | inl no_range ↦ (
                      below,
                      any_segment-Answers info (a - base) segment offset found
                          (ground (arith, e, good, known, no_range)),
                    )
                    | inr (range, first) ↦
                        let (c, k) =
                          find_range-Contained (λ r. r.segment == ne_seg) (a - base) info.ranges
                            range first in
                        let (s, o, line) =
                          place_in-found info ne_seg (a - base) segment offset found
                            (ground (arith, e, good, known, first)) in
                        let same : range.segment ≡ segment = ground (arith, k, s) in
                        (below, moved info same s o c line)
                  ]
          ]
    ]

-- Where the segment bases come from: nowhere in LX mode, the selector's slot in NE mode.
abbrev pub Base : Option SharedState → Bool → ℕ → ℕ → Type 0
Base state true cs base = base ≡ 0
Base state false cs base =
    (table : SharedState) × (state ≡ some table) × (get_elem? table.selectors (cs / 8) ≡ some base)

-- An answer of dwarf_linear_to_line lies at the linear address less a base, which is 0 in LX mode
-- and the base of the slot of `cs` in NE mode; a range of the answered segment contains that
-- offset; and the line and the name are those of dwarf_addr_to_line there.
pub dwarf_linear_to_line-Answers :
    (info : DwarfInfo) (state : Option SharedState) (is_lx_mode : Bool) (a cs segment offset : ℕ)
    → (found : ℕ × Option Name)
    → dwarf_linear_to_line info state is_lx_mode a cs ≡ some (found, segment, offset)
    → (base : ℕ) × Base state is_lx_mode cs base
      × (base ≤ a)
      × Answers info (a - base) found segment offset
unfolding dwarf_linear_to_line
dwarf_linear_to_line-Answers info state true a cs segment offset found e =
    elim (Bool-cases (not info.loaded || length info.ranges == 0)) [
      | inl bad ↦ absurd (ground (arith, e, bad))
      | inr good ↦
          let (o, c, line) =
            any_segment-Answers info a segment offset found (ground (arith, e, good)) in
          (0, refl, omega arith, (omega (arith, o), c, line))
    ]
dwarf_linear_to_line-Answers info none false a cs segment offset found e =
    absurd (ground (arith, e))
dwarf_linear_to_line-Answers info (some table) false a cs segment offset found e =
    elim (Bool-cases
      (not info.loaded || length info.ranges == 0 || leb lx_max_ldt_slots (cs / 8))) [
        | inl bad ↦ absurd (ground (arith, e, bad))
        | inr good ↦ elim (Option-cases (get_elem? table.selectors (cs / 8))) [
          | inl no_base ↦ absurd (ground (arith, e, good, no_base))
          | inr (base, at) ↦ elim (Option-cases (get_elem? table.ne_segment (cs / 8))) [
            | inl no_segment ↦ absurd (ground (arith, e, good, at, no_segment))
            | inr (ne_seg, known) ↦
                let (below, answer) =
                  ne_place-Answers info base ne_seg a segment offset found
                    (ground (arith, e, good, at, known)) in
                (base, (table, refl, at), below, answer)
          ]
        ]
      ]
