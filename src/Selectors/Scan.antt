-- ===== src/Selectors/Scan.antt =====
-- The two searches of lxFindSelector: the tiled slot, and the loop over all slots.
use ine_debugger.Prelude.{ℕ, zero, suc, ◌+◌, ◌-◌, ◌≤◌, ◌<◌, ◌≡◌, ◌≢◌, ◌⊎◌, arith}
use ine_debugger.Prelude.{true, false, Option, none, some}
use native.Mathlib.Decide.{dec_lt}
use ine_debugger.Prelude.Word.{u16}
use ine_debugger.Selectors.{max_slots, covers, tiled, scan}
use ine_debugger.Selectors.Tiled.{found, prefer}
use ine_debugger.Selectors.Scanned.{hit, miss}

-- A slot in use whose 64k tile holds the address, at that offset.
pub record Holds (ldt : ℕ → ℕ) (addr selector offset : ℕ) : Type 0 where
  pub in_range : selector < max_slots
  pub in_use : ldt selector ≢ 0
  pub adds_up : ldt selector + offset ≡ addr
  pub small : offset < 0x10000

pub covers→lt : (tile addr : ℕ) → covers tile addr ≡ true → (tile ≤ addr) × (addr < tile + 0x10000)
covers→lt tile addr h = ground arith

pub tiled-Holds :
    (ldt : ℕ → ℕ) (addr selector offset : ℕ)
    → tiled ldt addr ≡ found selector offset
    → Holds ldt addr selector offset
unfolding tiled
tiled-Holds ldt addr selector offset h = ground arith

pub tiled_prefer-free :
    (ldt : ℕ → ℕ) (addr idx : ℕ) → tiled ldt addr ≡ prefer idx → (idx < max_slots) × (ldt idx ≡ 0)
unfolding tiled
tiled_prefer-free ldt addr idx h = ground arith

pub scan-Holds :
    (ldt : ℕ → ℕ) (addr n i : ℕ) (available : Option ℕ) (selector offset : ℕ)
    → i + n ≤ max_slots
    → scan ldt addr n i available ≡ hit selector offset
    → Holds ldt addr selector offset
unfolding scan
scan-Holds ldt addr zero i available selector offset b h = ground arith
scan-Holds ldt addr (suc n) i available selector offset b h = ground (
  arith,
  scan-Holds ldt addr n (i + 1) (some i) selector offset (omega arith),
  scan-Holds ldt addr n (i + 1) available selector offset (omega arith),
)

-- A slot that is free, or whose tile does not hold the address.
abbrev pub Skips : (ℕ → ℕ) → ℕ → ℕ → Type 0
Skips ldt addr j = (ldt j ≡ 0) ⊎ (covers (ldt j) addr ≡ false)

-- A loop that finds nothing has passed every slot.
pub scan_miss-Skips :
    (ldt : ℕ → ℕ) (addr n i : ℕ) (available result : Option ℕ) (j : ℕ)
    → scan ldt addr n i available ≡ miss result
    → i ≤ j
    → j < i + n
    → Skips ldt addr j
unfolding scan
scan_miss-Skips ldt addr zero i available result j h lo hi = absurd (omega arith)
scan_miss-Skips ldt addr (suc n) i available result j h lo hi = elim (dec_lt i j) [
  | yes p ↦ ground (
    arith,
    scan_miss-Skips ldt addr n (i + 1) (some i) result j,
    scan_miss-Skips ldt addr n (i + 1) available result j,
  )
  | no p ↦ let e : j ≡ i = omega arith in rw e (ground arith)
]

-- The slot it then offers is free: one of those passed, or the one that it was given.
pub scan_miss-free :
    (ldt : ℕ → ℕ) (addr n i : ℕ) (available : Option ℕ) (slot : ℕ)
    → i + n ≤ max_slots
    → scan ldt addr n i available ≡ miss (some slot)
    → (available ≡ some slot) ⊎ ((slot < max_slots) × (ldt slot ≡ 0))
unfolding scan
scan_miss-free ldt addr zero i available slot b h = ground arith
scan_miss-free ldt addr (suc n) i available slot b h = ground (
  arith,
  scan_miss-free ldt addr n (i + 1) (some i) slot (omega arith),
  scan_miss-free ldt addr n (i + 1) available slot (omega arith),
)

-- It offers none only where it was given none and no slot is free.
pub scan_miss-none :
    (ldt : ℕ → ℕ) (addr n i : ℕ) (available : Option ℕ)
    → scan ldt addr n i available ≡ miss none
    → available ≡ none
unfolding scan
scan_miss-none ldt addr zero i available h = ground arith
scan_miss-none ldt addr (suc n) i available h =
    ground (
      arith,
      scan_miss-none ldt addr n (i + 1) (some i),
      scan_miss-none ldt addr n (i + 1) available,
    )

pub scan_miss-full :
    (ldt : ℕ → ℕ) (addr n i : ℕ) (available : Option ℕ) (j : ℕ)
    → scan ldt addr n i available ≡ miss none
    → i ≤ j
    → j < i + n
    → ldt j ≢ 0
unfolding scan
scan_miss-full ldt addr zero i available j h lo hi = absurd (omega arith)
scan_miss-full ldt addr (suc n) i available j h lo hi = elim (dec_lt i j) [
  | yes p ↦ ground (
    arith,
    scan_miss-none ldt addr n (i + 1) (some i),
    scan_miss-full ldt addr n (i + 1) available j,
  )
  | no p ↦
      let e : j ≡ i = omega arith in
      rw e (ground (arith, scan_miss-none ldt addr n (i + 1) (some i)))
]

-- Where only one slot holds an address, the loop ends there.
pub scan_only :
    (ldt : ℕ → ℕ) (addr n i : ℕ) (available : Option ℕ) (slot : ℕ)
    → i + n ≤ max_slots
    → i ≤ slot
    → slot < i + n
    → ldt slot ≢ 0
    → covers (ldt slot) addr ≡ true
    → ((j : ℕ) → j < max_slots → j ≢ slot → Skips ldt addr j)
    → scan ldt addr n i available ≡ hit slot (u16 (addr - ldt slot))
unfolding scan
scan_only ldt addr zero i available slot b lo hi used c others = absurd (omega arith)
scan_only ldt addr (suc n) i available slot b lo hi used c others = elim (dec_lt i slot) [
  | yes p ↦ ground (
    arith,
    others i (omega arith),
    scan_only ldt addr n (i + 1) (some i) slot (omega arith) (omega arith) (omega arith) used c
        others,
    scan_only ldt addr n (i + 1) available slot (omega arith) (omega arith) (omega arith) used c
        others,
  )
  | no p ↦ let e : i ≡ slot = omega arith in rw e (ground arith)
]
