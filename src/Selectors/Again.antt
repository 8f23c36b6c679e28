-- ===== src/Selectors/Again.antt =====
-- lxFindSelector on a table that has the address already.
use ine_debugger.Prelude.{ℕ, ◌-◌, ◌≤◌, ◌<◌, ◌%◌, ◌≡◌, ◌≢◌, arith}
use ine_debugger.Prelude.{Bool, true, Option, none, some, ◌∙◌}
use ine_debugger.Prelude.Word.{u16, ◌>>◌}
use ine_debugger.Selectors.{max_slots, covers, UserDesc, Loader}
use ine_debugger.Selectors.{tiled, find_untiled}
use ine_debugger.Selectors.{find_selector}
use ine_debugger.Selectors.Scan.{Skips}
use ine_debugger.Selectors.Scan.{scan_only}
use ine_debugger.Selectors.Find.{
  with_tile, Outcome, existing, full, refused, fresh, answer-injective, find_selector-Outcome,
}

module _ (modify_ldt : UserDesc → Bool) where
  covers_base : (addr : ℕ) → addr < 0xFFFF0000 → covers (addr - addr % 0x10000) addr ≡ true
  covers_base addr h = ground arith

  -- Where one slot alone holds the address, the search finds that slot.
  pub find_selector_only :
      (addr : ℕ) (iscode : Option Bool) (s : Loader) (slot : ℕ)
      → 4096 ≤ addr
      → slot < max_slots
      → s.ldt slot ≢ 0
      → covers (s.ldt slot) addr ≡ true
      → ((j : ℕ) → j < max_slots → j ≢ slot → Skips s.ldt addr j)
      → find_selector modify_ldt addr iscode s ≡ some (some (slot, u16 (addr - s.ldt slot)), s)
  unfolding find_selector tiled find_untiled
  find_selector_only addr iscode s slot lo lt used c others =
      let idx = u16 (addr >> 16) in
      ground (
        arith,
        others idx,
        scan_only s.ldt addr max_slots 0 none slot (omega arith) (omega arith) lt used c others,
        scan_only s.ldt addr max_slots 0 (some idx) slot (omega arith) (omega arith) lt used c
            others,
      )

  -- With its tile in the table, an address is found where it was put.
  find_with_tile :
      (addr : ℕ) (iscode : Option Bool) (s : Loader) (slot : ℕ)
      → 0x10000 ≤ addr
      → addr < 0xFFFF0000
      → slot < max_slots
      → ((j : ℕ) → j < max_slots → Skips s.ldt addr j)
      → find_selector modify_ldt addr iscode (with_tile s addr slot)
        ≡ some (some (slot, addr % 0x10000), with_tile s addr slot)
  find_with_tile addr iscode s slot lo hi lt skips =
      find_selector_only addr iscode (with_tile s addr slot) slot (omega arith) lt (ground arith)
        (ground (arith, covers_base addr hi)) (λ j h ne. ground (arith, skips j h))
      ∙ ground arith

  -- A search for the same address again gives the same answer and changes nothing. The address is
  -- from 64k on and below the last 64k.
  pub find_selector_again :
      (addr : ℕ) (iscode : Option Bool) (s s' : Loader) (selector offset : ℕ)
      → 0x10000 ≤ addr
      → addr < 0xFFFF0000
      → find_selector modify_ldt addr iscode s ≡ some (some (selector, offset), s')
      → find_selector modify_ldt addr iscode s' ≡ some (some (selector, offset), s')
  find_selector_again addr iscode s s' selector offset lo hi h =
      go (find_selector-Outcome modify_ldt addr iscode s (omega arith)) h
    where
      go :
          {r : Option (Option (ℕ × ℕ) × Loader)}
          → Outcome modify_ldt addr s r
          → r ≡ some (some (selector, offset), s')
          → find_selector modify_ldt addr iscode s' ≡ some (some (selector, offset), s')
      go (existing sel off hd) e = let (p, q, t) = answer-injective e in cc t
      go (full f) e = cc
      go (refused d r) e = cc
      go (fresh slot lt free skips) e =
          let (p, q, t) = answer-injective e in
          rw (← p, ← q, ← t) (find_with_tile addr iscode s slot lo hi lt skips)
