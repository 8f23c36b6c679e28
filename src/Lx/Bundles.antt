-- ===== src/Lx/Bundles.antt =====
-- lx_loader.c: the loop of both loaders that counts the entries of an entry table, bundle by bundle.
-- The loaders differ in the bytes that a bundle has behind its head and in what it counts.
use ine_debugger.Prelude.{ℕ, zero, suc, ◌+◌, ◌≤◌, ◌<◌, ◌≡◌, refl, arith, List, false, inl, inr}
use ine_debugger.Prelude.{◌==◌, if◌then◌else◌, Bool-cases}
use ine_debugger.Prelude.Memory.{Outcome, ok, stuck, ◌>>=◌, ok_of_bind, load8}

module _ (size counted : ℕ → ℕ → ℕ) (mem : List ℕ) where
  -- Both are given the byte of the type and the number of entries. The fuel is for the bundles.
  unfoldable pub count_bundles : ℕ → ℕ → ℕ → Outcome ℕ
  count_bundles zero p total = stuck
  count_bundles (suc fuel) p total = do
    numentries ← load8 mem p
    let rest = do
      type ← load8 mem (p + 1)
      count_bundles fuel (p + 2 + size type numentries) (total + counted type numentries)
    if numentries == 0 then ok total else rest

  -- A count that ends: at the end of the table, or over a bundle and then the rest.
  pub data CountEnds (fuel p acc t : ℕ) : Type 0 where
    at_end : load8 mem p ≡ ok 0 → acc ≡ t → CountEnds fuel p acc t
    over :
        (n type : ℕ)
        → load8 mem p ≡ ok n
        → (n == 0) ≡ false
        → load8 mem (p + 1) ≡ ok type
        → count_bundles fuel (p + 2 + size type n) (acc + counted type n) ≡ ok t
        → CountEnds fuel p acc t

  pub count_bundles-CountEnds :
      (fuel p acc t : ℕ) → count_bundles (suc fuel) p acc ≡ ok t → CountEnds fuel p acc t
  unfolding count_bundles
  count_bundles-CountEnds fuel p acc t e =
      let (n, read, rest) = ok_of_bind (load8 mem p) _ t e in
      elim (Bool-cases (n == 0)) [
        | inl end ↦
            let none_left : n ≡ 0 = ground (arith, end) in
            at_end (rw (← none_left) read) (let done = rw end at rest in cc done)
        | inr more ↦
            let (type, read', further) = ok_of_bind (load8 mem (p + 1)) _ t (rw more at rest) in
            over n type read more read' further
      ]

  -- A count never falls.
  pub count_le : (fuel p acc t : ℕ) → count_bundles fuel p acc ≡ ok t → acc ≤ t
  count_le zero p acc t e = unfold count_bundles in cc e
  count_le (suc fuel) p acc t e = elim (count_bundles-CountEnds fuel p acc t e) [
    | at_end read same ↦ omega arith
    | over n type read more read' further ↦ omega (arith, count_le fuel _ _ t further)
  ]

  pub count_end : (fuel p acc : ℕ) → load8 mem p ≡ ok 0 → count_bundles (suc fuel) p acc ≡ ok acc
  unfolding count_bundles
  count_end fuel p acc read = rw read refl

  pub counted_step :
      (fuel p acc n type : ℕ)
      → load8 mem p ≡ ok n
      → 0 < n
      → load8 mem (p + 1) ≡ ok type
      → count_bundles (suc fuel) p acc
        ≡ count_bundles fuel (p + 2 + size type n) (acc + counted type n)
  unfolding count_bundles
  counted_step fuel p acc n type read more read' =
      let some_entry : (n == 0) ≡ false = ground arith in rw (read, some_entry, read') refl
