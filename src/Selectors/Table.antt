-- ===== src/Selectors/Table.antt =====
-- The invariant of the selector table, and the search and the release of selectors under it.
use native.Mathlib.Decide.{dec_lt}
use ine_debugger.Prelude.{ℕ, ◌/◌, ◌-◌, ◌≤◌, ◌<◌, ◌%◌, ◌≡◌, ◌≢◌, ◌⊎◌, arith}
use ine_debugger.Prelude.{Bool, Option, some, inl, inr, refl, ◌∙◌}
use ine_debugger.Selectors.{max_slots, UserDesc, Loader, find_selector, free_selector, update}
use ine_debugger.Selectors.Scan.{Skips}
use ine_debugger.Selectors.Find.{Outcome, with_tile, find_selector-Outcome}
use ine_debugger.Selectors.Again.{find_selector_only}
use ine_debugger.Selectors.Find.{existing, full, refused, fresh, find_selector-Holds}

-- Tiles start on borders of 64k and below the last one, and no two slots share a tile.
pub record IsTable (s : Loader) : Type 0 where
  pub aligned : (j : ℕ) → s.ldt j % 0x10000 ≡ 0
  pub below : (j : ℕ) → s.ldt j < 0xFFFF0000
  pub distinct : (i j : ℕ) → i < max_slots → j < max_slots → s.ldt i ≢ 0 → s.ldt i ≡ s.ldt j → i ≡ j

with_tile-IsTable :
    (addr : ℕ) (s : Loader) (slot : ℕ)
    → addr < 0xFFFF0000
    → slot < max_slots
    → ((j : ℕ) → j < max_slots → Skips s.ldt addr j)
    → IsTable s
    → IsTable (with_tile s addr slot)
with_tile-IsTable addr s slot hi lt skips t = record {
  aligned = λ j. ground (arith, t.aligned j);
  below = λ j. ground (arith, t.below j);
  distinct = λ i j hi hj u e.
      ground (arith, skips i hi, skips j hj, t.below i, t.below j, t.distinct i j hi hj);
}

free_slot-IsTable :
    (s : Loader) (slot : ℕ) → IsTable s → IsTable (record s { ldt = update s.ldt slot 0 })
free_slot-IsTable s slot t = record {
  aligned = λ j. ground (arith, t.aligned j);
  below = λ j. ground (arith, t.below j);
  distinct = λ i j hi hj u e. ground (arith, t.distinct i j hi hj);
}

module _ (modify_ldt : UserDesc → Bool) where
  -- The search keeps the table well formed, for an address below the last 64k.
  pub find_selector-IsTable :
      (addr : ℕ) (iscode : Option Bool) (s s' : Loader) (answer : Option (ℕ × ℕ))
      → addr < 0xFFFF0000
      → IsTable s
      → find_selector modify_ldt addr iscode s ≡ some (answer, s')
      → IsTable s'
  find_selector-IsTable addr iscode s s' answer hi t h = elim (dec_lt addr 4096) [
    | yes p ↦ same (unfold find_selector in ground arith)
    | no p ↦ go (find_selector-Outcome modify_ldt addr iscode s (omega arith)) h
  ]
    where
      same : s ≡ s' → IsTable s'
      same e = rw (← e) t

      go :
          {r : Option (Option (ℕ × ℕ) × Loader)}
          → Outcome modify_ldt addr s r
          → r ≡ some (answer, s')
          → IsTable s'
      go (existing sel off hd) e = same (cc)
      go (full f) e = same (cc)
      go (refused d r) e = same (cc)
      go (fresh slot lt free skips) e =
          let moved : with_tile s addr slot ≡ s' = cc in
          rw (← moved) (with_tile-IsTable addr s slot hi lt skips t)

  -- Freeing a selector keeps the table well formed, and touches no other slot.
  pub free_selector-IsTable :
      (selector : ℕ) (s s' : Loader)
      → IsTable s
      → free_selector modify_ldt selector s ≡ some s'
      → IsTable s' × ((j : ℕ) → j ≢ selector → s'.ldt j ≡ s.ldt j)
  unfolding free_selector
  free_selector-IsTable selector s s' t h = elim cases [
    | inl e ↦ rw (← e) (t, λ j ne. refl)
    | inr e ↦ rw (← e) (free_slot-IsTable s selector t, λ j ne. ground arith)
  ]
    where
      cases : (s ≡ s') ⊎ (record s { ldt = update s.ldt selector 0 } ≡ s')
      cases = ground arith

  -- All addresses of a 64k tile share the selector that the first search for one of them returned:
  -- a later search gives it with the address's low 16 bits. The table is well formed, and the
  -- tile is neither the first nor the last.
  pub find_selector_same_tile :
      (addr other : ℕ) (iscode code : Option Bool) (s s' : Loader) (selector offset : ℕ)
      → 0x10000 ≤ addr
      → addr < 0xFFFF0000
      → other / 0x10000 ≡ addr / 0x10000
      → IsTable s
      → find_selector modify_ldt addr iscode s ≡ some (some (selector, offset), s')
      → find_selector modify_ldt other code s' ≡ some (some (selector, other % 0x10000), s')
  find_selector_same_tile addr other iscode code s s' selector offset lo hi tile t h =
      let t' = find_selector-IsTable addr iscode s s' (some (selector, offset)) hi t h in
      let (holds, kept) = find_selector-Holds modify_ldt addr iscode s s' selector offset lo h in
      let base : s'.ldt selector ≡ other - other % 0x10000 =
        omega (arith, t'.aligned selector, holds.adds_up, holds.small) in
      find_selector_only modify_ldt other code s' selector (omega arith) holds.in_range holds.in_use
        (ground (arith, base, t'.below selector))
        (λ j lt ne.
          ground (arith, base, t'.aligned j, t'.below j, t'.distinct j selector lt holds.in_range))
      ∙ ground (arith, base)
