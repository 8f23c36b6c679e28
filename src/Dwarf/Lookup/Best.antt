-- ===== src/Dwarf/Lookup/Best.antt =====
-- The row that dwarf_addr_to_line takes.
use ine_debugger.Prelude.{ℕ, ◌<◌, ◌≤◌, ◌≡◌, refl, sym, ap, ◌∙◌, arith, ◌⊎◌, inl, inr, ◌↔◌}
use ine_debugger.Prelude.{true, ◌&&◌, Option, none, some, List, [], ◌∷◌, length}
use ine_debugger.Prelude.{leb, Bool-cases}
use ine_debugger.Dwarf.Program.{Row}
use ine_debugger.Dwarf.Lookup.{DwarfInfo, row_covers, best_loop, row_name, dwarf_addr_to_line, Name}

module _ (segment offset : ℕ) where
  -- A row stands at a place where it covers the offset.
  abbrev pub CoversIn : List Row → Row → Type 0
  CoversIn [] row = ⊥
  CoversIn (x ∷ xs) row = ((x ≡ row) × (row_covers segment offset x xs ≡ true)) ⊎ CoversIn xs row

  -- The covering row with the greatest address, the last of those that have it.
  abbrev pub IsBest : List Row → Row → Type 0
  IsBest [] row = ⊥
  IsBest (x ∷ xs) row =
      ((x ≡ row)
        × (row_covers segment offset x xs ≡ true)
        × ((y : Row) → CoversIn xs y → y.address < row.address))
      ⊎ (IsBest xs row × (row_covers segment offset x xs ≡ true → x.address ≤ row.address))

  -- How the loop ends.
  abbrev pub Ends : List Row → Option Row → ℕ → Option Row → Type 0
  Ends rows best best_addr result =
      ((result ≡ best) × ((y : Row) → CoversIn rows y → y.address < best_addr))
      ⊎ ((row : Row) × (result ≡ some row) × IsBest rows row × (best_addr ≤ row.address))

  pub best_loop_lem :
      (rows : List Row) (best : Option Row) (best_addr : ℕ)
      → Ends rows best best_addr (best_loop segment offset rows best best_addr)
  unfolding best_loop
  best_loop_lem [] best best_addr = inl (refl, λ y c. elim c [ ])
  best_loop_lem (x ∷ xs) best best_addr =
      elim (Bool-cases (row_covers segment offset x xs && leb best_addr x.address)) [
        | inl better ↦
            let cov : row_covers segment offset x xs ≡ true = ground (arith, better) in
            let up : best_addr ≤ x.address = ground (arith, better) in
            rw better (elim (best_loop_lem xs (some x) x.address) [
              | inl (e, later) ↦ inr (x, e, inl (refl, cov, later), up)
              | inr (row, e, is_best, le) ↦ inr (row, e, inr (is_best, λ c. le), omega arith)
            ])
        | inr worse ↦
            let low : row_covers segment offset x xs ≡ true → x.address < best_addr =
              (λ c. ground (arith, c, worse)) in
            rw worse (elim (best_loop_lem xs best best_addr) [
              | inl (e, later) ↦ inl (
                e,
                λ y c. elim c [
                  | inl (same, cov) ↦ rw (sym same) (low cov)
                  | inr further ↦ later y further
                ],
              )
              | inr (row, e, is_best, le) ↦
                  inr (row, e, inr (is_best, λ c. omega (arith, low c)), le)
            ])
      ]

  pub IsBest→CoversIn : (rows : List Row) (row : Row) → IsBest rows row → CoversIn rows row
  IsBest→CoversIn [] row b = elim b [ ]
  IsBest→CoversIn (x ∷ xs) row (inl (e, cov, later)) = inl (e, cov)
  IsBest→CoversIn (x ∷ xs) row (inr (b, le)) = inr (IsBest→CoversIn xs row b)

  -- No covering row has a greater address.
  pub IsBest-greatest :
      (rows : List Row) (row y : Row) → IsBest rows row → CoversIn rows y → y.address ≤ row.address
  IsBest-greatest [] row y b c = elim c [ ]
  IsBest-greatest (x ∷ xs) row y (inl (e, cov, later)) (inl (e', cov')) =
      let same : y.address ≡ row.address = ap (λ (r : Row). r.address) (sym e' ∙ e) in
      omega (arith, same)
  IsBest-greatest (x ∷ xs) row y (inl (e, cov, later)) (inr c) = omega (arith, later y c)
  IsBest-greatest (x ∷ xs) row y (inr (b, le)) (inl (e', cov')) =
      let same : x.address ≡ y.address = ap (λ (r : Row). r.address) e' in
      omega (arith, same, le cov')
  IsBest-greatest (x ∷ xs) row y (inr (b, le)) (inr c) = IsBest-greatest xs row y b c

  pub IsBest-nonempty : (rows : List Row) (row : Row) → IsBest rows row → 0 < length rows
  IsBest-nonempty [] row b = elim b [ ]
  IsBest-nonempty (x ∷ xs) row b = omega arith

  CoversIn-covers : (rows : List Row) (row : Row) → CoversIn rows row → row.address ≤ offset
  unfolding row_covers
  CoversIn-covers [] row c = elim c [ ]
  CoversIn-covers (x ∷ xs) row (inl (e, cov)) =
      let same : x.address ≡ row.address = ap (λ (r : Row). r.address) e in
      ground (arith, cov, same)
  CoversIn-covers (x ∷ xs) row (inr c) = CoversIn-covers xs row c

  pub IsBest-le : (rows : List Row) (row : Row) → IsBest rows row → row.address ≤ offset
  IsBest-le rows row b = CoversIn-covers rows row (IsBest→CoversIn rows row b)

-- An answer is the line and the file name of the row that covers the offset with the greatest
-- address, the last of those where several have it: of the segment, not an end of a sequence, at or
-- below the offset, and with the offset before the next end of a sequence.
pub dwarf_addr_to_line-IsBest :
    (info : DwarfInfo) (segment offset line : ℕ) (name : Option Name)
    → dwarf_addr_to_line info segment offset ≡ some (line, name)
    → (row : Row) × IsBest segment offset info.lines row
      × (line ≡ row.line)
      × (name ≡ row_name info row)
unfolding dwarf_addr_to_line
dwarf_addr_to_line-IsBest info segment offset line name e =
    elim (best_loop_lem segment offset info.lines none 0) [
      | inl (nothing, low) ↦ absurd (ground (arith, nothing, e))
      | inr (row, found, is_best, le) ↦
          (row, is_best, ground (arith, found, e), ground (arith, found, e))
    ]

-- With the tables loaded, there is no answer exactly where no row covers the offset.
pub dwarf_addr_to_line_fails :
    (info : DwarfInfo) (segment offset : ℕ)
    → info.loaded ≡ true
    → (dwarf_addr_to_line info segment offset ≡ none)
      ↔ ((row : Row) → ¬ CoversIn segment offset info.lines row)
unfolding dwarf_addr_to_line
dwarf_addr_to_line_fails info segment offset h =
    elim (best_loop_lem segment offset info.lines none 0) [
      | inl (nothing, low) ↦
          (λ e row c. absurd (omega (arith, low row c)), λ no. ground (arith, nothing, h))
      | inr (row, found, is_best, le) ↦
          let some_rows = IsBest-nonempty segment offset info.lines row is_best in
          (
            λ e y c. absurd (ground (arith, e, found, h, some_rows)),
            λ no. absurd (no row (IsBest→CoversIn segment offset info.lines row is_best)),
          )
    ]
