-- ===== src/Selectors/Find.antt =====
-- lxFindSelector: what it finds, what it changes, and when it fails.
use native.Mathlib.Decide.{dec_lt}
use ine_debugger.Prelude.{ℕ, ◌-◌, ◌≤◌, ◌<◌, ◌%◌, ◌≡◌, ◌≢◌, ◌⊎◌, arith}
use ine_debugger.Prelude.{Bool, true, false, Option, none, some, inl, inr, refl, if◌then◌else◌}
use ine_debugger.Prelude.{Bool-cases}
use ine_debugger.Prelude.Word.{u16}
use ine_debugger.Selectors.{max_slots, UserDesc, Loader, update, Contents, decide_code}
use ine_debugger.Selectors.{Tiled, tiled, Scanned, scan, allocate_selector, map_new, find_untiled}
use ine_debugger.Selectors.{find_selector}
use ine_debugger.Selectors.Tiled.{found, prefer, other}
use ine_debugger.Selectors.Scanned.{hit, miss}
use ine_debugger.Selectors.Scan.{
  Holds, Skips, tiled-Holds, tiled_prefer-free, scan-Holds, scan_miss-Skips,
}
use ine_debugger.Selectors.Scan.{scan_miss-free, scan_miss-full}

-- The table with a 64k tile for the address in one slot.
abbrev pub with_tile : Loader → ℕ → ℕ → Loader
with_tile s addr slot = record s { ldt = update s.ldt slot (addr - addr % 0x10000) }

-- The four ways in which a search ends.
pub data Outcome (modify_ldt : UserDesc → Bool) (addr : ℕ) (s : Loader)
    : Option (Option (ℕ × ℕ) × Loader) → Type 0 where
  existing :
      (selector offset : ℕ)
      → Holds s.ldt addr selector offset
      → Outcome modify_ldt addr s (some (some (selector, offset), s))
  full : ((j : ℕ) → j < max_slots → s.ldt j ≢ 0) → Outcome modify_ldt addr s (some (none, s))
  refused : (d : UserDesc) → modify_ldt d ≡ false → Outcome modify_ldt addr s (some (none, s))
  fresh :
      (slot : ℕ)
      → slot < max_slots
      → s.ldt slot ≡ 0
      → ((j : ℕ) → j < max_slots → Skips s.ldt addr j)
      → Outcome modify_ldt addr s (some (some (slot, addr % 0x10000), with_tile s addr slot))

pub answer-injective :
    {a b c d : ℕ} {s s' : Loader}
    → ◌≡◌ {A = Option (Option (ℕ × ℕ) × Loader)} (some (some (a, b), s)) (some (some (c, d), s'))
    → (a ≡ c) × (b ≡ d) × (s ≡ s')
answer-injective e = (cc, cc, cc)

module _ (modify_ldt : UserDesc → Bool) where
  -- A free slot is taken, or the kernel refuses the descriptor and nothing changes.
  pub allocate_selector_free :
      (slot pages addr : ℕ) (contents : Contents) (is32bit : Bool) (s : Loader)
      → slot < max_slots
      → s.ldt slot ≡ 0
      → (d : UserDesc) × ((allocate_selector modify_ldt slot pages addr contents is32bit s
            ≡ some (true, record s { ldt = update s.ldt slot addr }))
          ⊎ ((modify_ldt d ≡ false)
              × (allocate_selector modify_ldt slot pages addr contents is32bit s
                  ≡ some (false, s))))
  unfolding allocate_selector
  allocate_selector_free slot pages addr contents is32bit s lt free =
      let d : UserDesc = record {
        entry_number = slot;
        base_addr = addr;
        limit = pages;
        seg_32bit = is32bit;
        contents = contents;
        read_exec_only = false;
        limit_in_pages = true;
        seg_not_present = false;
        useable = true;
      } in
      (
        d,
        elim (Bool-cases (modify_ldt d)) [
          | inl e ↦ inl (ground arith)
          | inr e ↦ inr (e, ground arith)
        ],
      )

  Outcome-at :
      {addr : ℕ} {s : Loader} {r r' : Option (Option (ℕ × ℕ) × Loader)}
      → r ≡ r'
      → Outcome modify_ldt addr s r'
      → Outcome modify_ldt addr s r
  Outcome-at e o = rw e o

  -- Taking a free slot either works or is refused by the kernel.
  map_new-Outcome :
      (addr : ℕ) (iscode : Option Bool) (slot : ℕ) (s : Loader)
      → slot < max_slots
      → s.ldt slot ≡ 0
      → ((j : ℕ) → j < max_slots → Skips s.ldt addr j)
      → Outcome modify_ldt addr s (map_new modify_ldt addr iscode slot s)
  unfolding map_new
  map_new-Outcome addr iscode slot s lt free skips =
      let same : u16 slot ≡ slot = omega arith in
      let (d, cases) =
        allocate_selector_free slot 16 (addr - addr % 0x10000)
          (if decide_code s.loaded_modules addr iscode
            then Contents.contents_code
            else Contents.contents_data)
          false s lt free in
      elim cases [
        | inl e ↦ Outcome-at (ground (arith, e, same)) (fresh slot lt free skips)
        | inr (r, e) ↦ Outcome-at (ground (arith, e, same)) (refused d r)
      ]

  find_untiled-Outcome :
      (addr : ℕ) (iscode : Option Bool) (preferred : Option ℕ) (s : Loader)
      → ((p : ℕ) → preferred ≡ some p → (p < max_slots) × (s.ldt p ≡ 0))
      → Outcome modify_ldt addr s (find_untiled modify_ldt addr iscode preferred s)
  unfolding find_untiled
  find_untiled-Outcome addr iscode preferred s ok =
      go (scan s.ldt addr max_slots 0 preferred) preferred refl refl
    where
      offered :
          (a : ℕ)
          → scan s.ldt addr max_slots 0 preferred ≡ miss (some a)
          → preferred ≡ none
          → (a < max_slots) × (s.ldt a ≡ 0)
      offered a e q =
          ground (arith, scan_miss-free s.ldt addr max_slots 0 preferred a (omega arith) e)

      go :
          (r : Scanned) (p : Option ℕ)
          → scan s.ldt addr max_slots 0 preferred ≡ r
          → preferred ≡ p
          → Outcome modify_ldt addr s (find_untiled modify_ldt addr iscode preferred s)
      go (hit selector offset) p e q = Outcome-at (cc) (
          existing selector offset
            (scan-Holds s.ldt addr max_slots 0 preferred selector offset (omega arith) e))
      go (miss none) p e q = Outcome-at (ground arith) (
          full (λ j lt.
            scan_miss-full s.ldt addr max_slots 0 preferred j e (omega arith) (omega arith)))
      go (miss (some a)) none e q =
          let (lt, free) = offered a e q in
          Outcome-at (ground arith) (
            map_new-Outcome addr iscode a s lt free (λ j lt.
              scan_miss-Skips s.ldt addr max_slots 0 preferred (some a) j e (omega arith)
                (omega arith)))
      go (miss (some a)) (some p) e q =
          let (lt, free) = ok p q in
          Outcome-at (ground arith) (
            map_new-Outcome addr iscode p s lt free (λ j lt.
              scan_miss-Skips s.ldt addr max_slots 0 preferred (some a) j e (omega arith)
                (omega arith)))

  pub find_selector-Outcome :
      (addr : ℕ) (iscode : Option Bool) (s : Loader)
      → 4096 ≤ addr
      → Outcome modify_ldt addr s (find_selector modify_ldt addr iscode s)
  unfolding find_selector
  find_selector-Outcome addr iscode s h = go (tiled s.ldt addr) refl
    where
      go :
          (r : Tiled)
          → tiled s.ldt addr ≡ r
          → Outcome modify_ldt addr s (find_selector modify_ldt addr iscode s)
      go (found selector offset) e =
          Outcome-at (ground (arith, e))
            (existing selector offset (tiled-Holds s.ldt addr selector offset e))
      go (prefer idx) e = Outcome-at (ground (arith, e)) (
          find_untiled-Outcome addr iscode (some idx) s
            (λ p q. ground (arith, tiled_prefer-free s.ldt addr idx e)))
      go other e =
          Outcome-at (ground (arith, e)) (find_untiled-Outcome addr iscode none s (λ p q. cc))

  -- The assert on the slot number never fails: the search always returns.
  pub find_selector_returns :
      (addr : ℕ) (iscode : Option Bool) (s : Loader)
      → (r : Option (ℕ × ℕ) × Loader) × (find_selector modify_ldt addr iscode s ≡ some r)
  find_selector_returns addr iscode s = elim (dec_lt addr 4096) [
    | yes p ↦ ((none, s), unfold find_selector in ground arith)
    | no p ↦ go (find_selector-Outcome addr iscode s (omega arith))
  ]
    where
      go :
          {r : Option (Option (ℕ × ℕ) × Loader)}
          → Outcome modify_ldt addr s r
          → (p : Option (ℕ × ℕ) × Loader) × (r ≡ some p)
      go (existing selector offset h) = ((some (selector, offset), s), refl)
      go (full h) = ((none, s), refl)
      go (refused d h) = ((none, s), refl)
      go (fresh slot lt free skips) = ((some (slot, addr % 0x10000), with_tile s addr slot), refl)

  -- A selector that the search returns stands for the address in the table that it leaves, and
  -- the selectors in use before keep their tiles. The address is a 32-bit one from 64k on.
  pub find_selector-Holds :
      (addr : ℕ) (iscode : Option Bool) (s s' : Loader) (selector offset : ℕ)
      → 0x10000 ≤ addr
      → find_selector modify_ldt addr iscode s ≡ some (some (selector, offset), s')
      → Holds s'.ldt addr selector offset × ((j : ℕ) → s.ldt j ≢ 0 → s'.ldt j ≡ s.ldt j)
  find_selector-Holds addr iscode s s' selector offset lo h =
      go (find_selector-Outcome addr iscode s (omega arith)) h
    where
      go :
          {r : Option (Option (ℕ × ℕ) × Loader)}
          → Outcome modify_ldt addr s r
          → r ≡ some (some (selector, offset), s')
          → Holds s'.ldt addr selector offset × ((j : ℕ) → s.ldt j ≢ 0 → s'.ldt j ≡ s.ldt j)
      go (existing sel off hd) e =
          let (p, q, t) = answer-injective e in rw (← p, ← q, ← t) (hd, λ j u. refl)
      go (full f) e = cc
      go (refused d r) e = cc
      go (fresh slot lt free skips) e =
          let (p, q, t) = answer-injective e in
          rw (← p, ← q, ← t)
            (
              record {
                in_range = lt;
                in_use = ground arith;
                adds_up = ground arith;
                small = omega arith;
              },
              λ j u. ground arith,
            )

  -- The search gives up for an address below 4096, where every slot is in use, or where the kernel
  -- refuses a descriptor. It then changes nothing.
  pub find_selector_fails :
      (addr : ℕ) (iscode : Option Bool) (s s' : Loader)
      → find_selector modify_ldt addr iscode s ≡ some (none, s')
      → (s' ≡ s)
        × ((addr < 4096)
            ⊎ (((j : ℕ) → j < max_slots → s.ldt j ≢ 0) ⊎ ((d : UserDesc) × (modify_ldt d ≡ false))))
  find_selector_fails addr iscode s s' h = elim (dec_lt addr 4096) [
    | yes p ↦ (unfold find_selector in ground arith, inl p)
    | no p ↦ go (find_selector-Outcome addr iscode s (omega arith)) h
  ]
    where
      go :
          {r : Option (Option (ℕ × ℕ) × Loader)}
          → Outcome modify_ldt addr s r
          → r ≡ some (none, s')
          → (s' ≡ s)
            × ((addr < 4096)
                ⊎ (((j : ℕ) → j < max_slots → s.ldt j ≢ 0)
                    ⊎ ((d : UserDesc) × (modify_ldt d ≡ false))))
      go (existing sel off hd) e = cc
      go (full f) e = (cc, inr (inl f))
      go (refused d r) e = (cc, inr (inr (d, r)))
      go (fresh slot lt free skips) e = cc
