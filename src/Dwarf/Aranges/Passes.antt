-- ===== src/Dwarf/Aranges/Passes.antt =====
-- Pass 2 stores as many ranges as pass 1 counted.
use ine_debugger.Prelude.{ℕ, zero, suc, ◌+◌, ◌-◌, ◌≤◌, ◌≡◌, refl, arith, ◌⊎◌, inl, inr}
use ine_debugger.Prelude.{◌||◌, List, [], ◌∷◌, ◌++◌, length}
use ine_debugger.Prelude.{ltb, leb, ◌==◌, Bool-cases, Option-cases, length-append}
use ine_debugger.Prelude.Word.{add32}
use ine_debugger.Dwarf.Program.{Parsed, done, fault, stuck}
use ine_debugger.Dwarf.Lookup.{Range}
use ine_debugger.Dwarf.Aranges.{
  count_entries, fill_entries, entry_at, is_end, range_of, count_ranges, fill_ranges, unit_head,
}
use ine_debugger.Dwarf.Aranges.{parse_debug_aranges, both_counts}

Parsed-cases {ℓ} :
    {A : Type ℓ} (x : Parsed A) → ((a : A) × (x ≡ done a)) ⊎ ((x ≡ fault) ⊎ (x ≡ stuck))
Parsed-cases (done a) = inl (a, refl)
Parsed-cases fault = inr (inl refl)
Parsed-cases stuck = inr (inr refl)

both_counts-done :
    (x y : Parsed ℕ) (n : ℕ)
    → both_counts x y ≡ done n
    → (a : ℕ) × (x ≡ done a) × (b : ℕ) × (y ≡ done b) × (n ≡ a + b)
both_counts-done (done a) (done b) n e = (a, refl, b, refl, ground (arith, e))
both_counts-done (done a) fault n e = absurd (ground (arith, e))
both_counts-done (done a) stuck n e = absurd (ground (arith, e))
both_counts-done fault y n e = absurd (ground (arith, e))
both_counts-done stuck y n e = absurd (ground (arith, e))

-- The loop of pass 2 ends with a list of this length.
abbrev Fills : Parsed (List Range) → ℕ → Type 0
Fills result n = (ranges : List Range) × (result ≡ done ranges) × (length ranges ≡ n)

fill_entries-Fills :
    (fuel : ℕ) (mem : List ℕ) (a s p unit_end n room : ℕ)
    → count_entries fuel mem a s p unit_end ≡ done n
    → n ≤ room
    → Fills (fill_entries fuel mem a s p unit_end room) n
unfolding count_entries fill_entries
fill_entries-Fills zero mem a s p unit_end n room e le = absurd (ground (arith, e))
fill_entries-Fills (suc fuel) mem a s p unit_end n room e le =
    let next = add32 p (a + s + a) in
    elim (Bool-cases (leb next unit_end)) [
      | inr past ↦ ([], ground (arith, past), ground (arith, e, past))
      | inl inside ↦ elim (Option-cases (entry_at mem a s p)) [
        | inl bad ↦ absurd (ground (arith, e, inside, bad))
        | inr (entry, at) ↦ elim (Bool-cases (is_end entry)) [
          | inl last ↦ ([], ground (arith, inside, at, last), ground (arith, e, inside, at, last))
          | inr more ↦ elim (Parsed-cases (count_entries fuel mem a s next unit_end)) [
            | inl (m, counted) ↦
                let total : n ≡ suc m = ground (arith, e, inside, at, more, counted) in
                let (ranges, filled, len) =
                  fill_entries-Fills fuel mem a s next unit_end m (room - 1) counted
                    (omega (arith, total)) in
                (
                  range_of entry ∷ ranges,
                  ground (arith, inside, at, more, filled, total),
                  omega (arith, len, total),
                )
            | inr (inl faulty) ↦ absurd (ground (arith, e, inside, at, more, faulty))
            | inr (inr endless) ↦ absurd (ground (arith, e, inside, at, more, endless))
          ]
        ]
      ]
    ]

fill_ranges-Fills :
    (steps fuel : ℕ) (mem : List ℕ) (cursor stop n room : ℕ)
    → count_ranges steps fuel mem cursor stop ≡ done n
    → n ≤ room
    → Fills (fill_ranges steps fuel mem cursor stop room) n
unfolding count_ranges fill_ranges
fill_ranges-Fills steps zero mem cursor stop n room e le = absurd (ground (arith, e))
fill_ranges-Fills steps (suc fuel) mem cursor stop zero zero e le = ([], ground arith, refl)
fill_ranges-Fills steps (suc fuel) mem cursor stop (suc n) zero e le = absurd (omega arith)
fill_ranges-Fills steps (suc fuel) mem cursor stop n (suc room) e le =
    elim (Bool-cases (leb (add32 cursor 12) stop)) [
      | inr past ↦ ([], ground (arith, past), ground (arith, e, past))
      | inl inside ↦ elim (Option-cases (unit_head mem cursor)) [
        | inl bad ↦ absurd (ground (arith, e, inside, bad))
        | inr ((total_length, a, s), at) ↦
            let unit_end = add32 cursor (4 + total_length) in
            elim (Bool-cases (total_length == 0 || ltb stop unit_end)) [
              | inl over ↦
                  ([], ground (arith, inside, at, over), ground (arith, e, inside, at, over))
              | inr whole ↦
                  let both : both_counts (count_entries steps mem a s (add32 cursor 12) unit_end)
                        (count_ranges steps fuel mem unit_end stop)
                      ≡ done n =
                    ground (arith, e, inside, at, whole) in
                  let (here, counted, rest, counted', total) = both_counts-done _ _ n both in
                  let (ranges, filled, len) =
                    fill_entries-Fills steps mem a s (add32 cursor 12) unit_end here (suc room)
                      counted (omega (arith, total)) in
                  let (ranges', filled', len') =
                    fill_ranges-Fills steps fuel mem unit_end stop rest (suc room - length ranges)
                      counted' (omega (arith, total, len)) in
                  (
                    ranges ++ ranges',
                    ground (arith, inside, at, whole, filled, filled'),
                    omega (arith, length-append ranges ranges', len, len', total),
                  )
            ]
      ]
    ]

-- Whatever bytes pass 1 ends on with a count, pass 2 ends too, without a bad access, and stores as
-- many ranges: no entry of the table stays empty.
pub parse_debug_aranges-count_ranges :
    (steps fuel : ℕ) (mem : List ℕ) (start size n : ℕ)
    → 12 ≤ size
    → count_ranges steps fuel mem start (add32 start size) ≡ done n
    → (ranges : List Range) × (parse_debug_aranges steps fuel mem start size ≡ done ranges)
      × (length ranges ≡ n)
unfolding parse_debug_aranges
parse_debug_aranges-count_ranges steps fuel mem start size n big e =
    let (ranges, filled, len) =
      fill_ranges-Fills steps fuel mem start (add32 start size) n n e (omega arith) in
    elim (Bool-cases (n == 0)) [
      | inl nothing ↦ ([], ground (arith, e, nothing), ground (arith, nothing))
      | inr something ↦ (ranges, ground (arith, e, something, filled), len)
    ]
