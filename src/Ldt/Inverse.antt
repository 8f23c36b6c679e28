-- ===== src/Ldt/Inverse.antt =====
-- Linear addresses to selectors and back.
use ine_debugger.Prelude.{
  ℕ, zero, suc, ◌+◌, ◌-◌, ◌*◌, ◌/◌, ◌^◌, ◌<◌, ◌≤◌, ◌≡◌, sym, arith, bit_and, bit_or,
}
use ine_debugger.Prelude.{
  true, false, none, some, Bool-cases, Option-cases, ◌≢◌, ◌↔◌, inl, inr, ◌==◌,
}
use mathlib.Core.Path.{subst}
use ine_debugger.Prelude.Bits.{shifted-bit_or, bit_and_mask, bit_and_digit}
use ine_debugger.Prelude.Word.{u16, add32, IsU32, ◌<<◌, ◌>>◌}
use ine_debugger.Ldt.{
  DebugSharedState, ldt_selector_to_linear, ldt_linear_to_selector, search_slots,
}
use ine_debugger.Ldt.{slot_holds, selector_at, index_of, max_slots}

-- The selector of slot `i`.
selector_value : (i : ℕ) → bit_or (bit_or (i << 3) 0x04) 0x03 ≡ i * 8 + 7
selector_value i =
    let first = shifted-bit_or 3 i 4 (omega arith) in
    let second = shifted-bit_or 2 (2 * i + 1) 3 (omega arith) in
    let same : i * 8 + 4 ≡ (2 * i + 1) * 2 ^ 2 = omega arith in ground (arith, first, second, same)

table_bit : (i : ℕ) → bit_and (i * 8 + 7) 0x4 ≡ 4
table_bit i =
    let a = bit_and_digit (i * 8 + 7) 4 in
    let b = bit_and_digit (i * 4 + 3) 2 in
    let c = bit_and_mask 1 (i * 2 + 1) in
    let ha : (i * 8 + 7) / 2 ≡ i * 4 + 3 = omega arith in
    let hb : (i * 4 + 3) / 2 ≡ i * 2 + 1 = omega arith in ground (arith, a, b, c, ha, hb)

-- What a search finds: a slot in use that holds the address.
search_slots_finds :
    (state : DebugSharedState) (linear n i : ℕ) (found : ℕ × ℕ)
    → search_slots state linear n i ≡ some found
    → (j : ℕ) × (j < i + n)
      × (slot_holds state linear j ≡ true)
      × (found ≡ selector_at state linear j)
unfolding search_slots
search_slots_finds state linear zero i found e = absurd (ground (arith, e))
search_slots_finds state linear (suc n) i found e = elim (Bool-cases (slot_holds state linear i)) [
  | inl here ↦ (i, omega arith, here, ground (arith, e, here))
  | inr skipped ↦
      let (j, lt, holds, same) =
        search_slots_finds state linear n (i + 1) found (ground (arith, e, skipped)) in
      (j, omega arith, holds, same)
]

back_to_linear :
    (state : DebugSharedState) (linear i : ℕ)
    → i < max_slots
    → IsU32 linear
    → state.limit i ≤ 0x10000
    → IsU32 (state.selectors i)
    → slot_holds state linear i ≡ true
    → ldt_selector_to_linear
        (some state)
        (selector_at state linear i).0
        (selector_at state linear i).1
      ≡ linear
unfolding ldt_selector_to_linear
back_to_linear state linear i lt small lim base holds =
    let selector : u16 (bit_or (bit_or (i << 3) 0x04) 0x03) ≡ i * 8 + 7 =
      omega (arith, selector_value i) in
    let index : index_of (i * 8 + 7) ≡ i = omega (arith, bit_and_mask 13 ((i * 8 + 7) >> 3)) in
    let used : (state.selectors i == 0) ≡ false = ground (arith, holds) in
    let below : state.selectors i ≤ linear = ground (arith, holds) in
    let above : linear < add32 (state.selectors i) (state.limit i) = ground (arith, holds) in
    let sum : add32 (state.selectors i) (u16 (linear - state.selectors i)) ≡ linear = omega arith in
    rw selector (ground (arith, table_bit i, index, used, sum))

-- An address that is translated to a selector and an offset is translated back to itself, where no
-- segment is longer than 64 KB.
pub ldt_selector_to_linear-ldt_linear_to_selector :
    (state : DebugSharedState) (linear selector offset : ℕ)
    → IsU32 linear
    → ((i : ℕ) → (state.limit i ≤ 0x10000) × IsU32 (state.selectors i))
    → ldt_linear_to_selector (some state) linear ≡ some (selector, offset)
    → ldt_selector_to_linear (some state) selector offset ≡ linear
unfolding ldt_linear_to_selector
ldt_selector_to_linear-ldt_linear_to_selector state linear selector offset small short e =
    let (i, lt, holds, same) = search_slots_finds state linear max_slots 0 (selector, offset) e in
    let back = back_to_linear state linear i (omega arith) small (short i).0 (short i).1 holds in
    subst (λ (t : ℕ × ℕ). ldt_selector_to_linear (some state) t.0 t.1 ≡ linear) (sym same) back

search_slots_all :
    (state : DebugSharedState) (linear n i j : ℕ)
    → search_slots state linear n i ≡ none
    → i ≤ j
    → j < i + n
    → slot_holds state linear j ≡ false
unfolding search_slots
search_slots_all state linear zero i j e le lt = absurd (omega arith)
search_slots_all state linear (suc n) i j e le lt = elim (Bool-cases (slot_holds state linear i)) [
  | inl here ↦ absurd (ground (arith, e, here))
  | inr skipped ↦ elim (Bool-cases (i == j)) [
    | inl same ↦
        let eq : i ≡ j = ground (arith, same) in
        subst (λ (t : ℕ). slot_holds state linear t ≡ false) eq skipped
    | inr other ↦
        let further : i ≢ j = (λ eq. absurd (ground (arith, other, eq))) in
        search_slots_all state linear n (i + 1) j (ground (arith, e, skipped))
          (omega (arith, further)) (omega arith)
  ]
]

-- There is no answer exactly where no slot in use holds the address.
pub ldt_linear_to_selector_fails :
    (state : DebugSharedState) (linear : ℕ)
    → (ldt_linear_to_selector (some state) linear ≡ none)
      ↔ ((i : ℕ) → i < max_slots → slot_holds state linear i ≡ false)
unfolding ldt_linear_to_selector
ldt_linear_to_selector_fails state linear = (
  λ e i lt. search_slots_all state linear max_slots 0 i e (omega arith) (omega arith),
  λ free. elim (Option-cases (search_slots state linear max_slots 0)) [
    | inl nothing ↦ nothing
    | inr (found, e) ↦
        let (i, lt, holds, same) = search_slots_finds state linear max_slots 0 found e in
        absurd (ground (arith, free i (omega arith), holds))
  ],
)
