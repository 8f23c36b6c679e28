-- ===== src/Doscalls/Tls/Masks.antt =====
-- The masks of thread local memory, digit by digit: which slots a block takes, and what the test of
-- the search says.
use ine_debugger.Doscalls.Tls.{block_mask, mask_at, find_block, not_32}
use ine_debugger.Prelude.{ℕ, zero, suc, ◌+◌, ◌-◌, ◌*◌, ◌^◌, ◌≤◌, ◌<◌, ◌≡◌, refl, ap, ◌∙◌, arith}
use ine_debugger.Prelude.{◌&&◌, Bool, true, Option, none, some, inl, inr}
use ine_debugger.Prelude.{
  ltb, leb, ◌==◌, ==_iff, if◌then◌else◌, Bool-cases, bit_and, bit_or, bit_xor,
}
use ine_debugger.Prelude.Word.{u32, ◌<<◌}
use ine_debugger.Prelude.Digits.{
  bit, bit_le, bit-bit_and, bit-bit_or, bit-bit_xor, bit-ones, bit-mod, bit-double, bit-double_zero,
  bit_ext,
}
use native.Mathlib.Nat.{pow-suc}

-- Whether slot `b` is one of the `cb` slots from `i` on, and one of the 32.
abbrev pub span : ℕ → ℕ → ℕ → ℕ
span i cb b = if leb i b && ltb b (i + cb) && ltb b 32 then 1 else 0

abbrev pub Block : ℕ → ℕ → ℕ → Type 0
Block i cb mask = (b : ℕ) → bit b mask ≡ span i cb b

block_mask-ones : (cb : ℕ) → cb ≤ 8 → block_mask cb ≡ 2 ^ cb - 1
block_mask-ones zero h = refl
block_mask-ones (suc zero) h = refl
block_mask-ones (suc (suc zero)) h = refl
block_mask-ones (suc (suc (suc zero))) h = refl
block_mask-ones (suc (suc (suc (suc zero)))) h = refl
block_mask-ones (suc (suc (suc (suc (suc zero))))) h = refl
block_mask-ones (suc (suc (suc (suc (suc (suc zero)))))) h = refl
block_mask-ones (suc (suc (suc (suc (suc (suc (suc zero))))))) h = refl
block_mask-ones (suc (suc (suc (suc (suc (suc (suc (suc zero)))))))) h = refl
block_mask-ones (suc (suc (suc (suc (suc (suc (suc (suc (suc k))))))))) h = absurd (omega arith)

pub block_mask-Block : (cb : ℕ) → cb ≤ 8 → Block 0 cb (block_mask cb)
block_mask-Block cb h b = let ones = block_mask-ones cb h in rw ones (bit-ones cb b ∙ ground arith)

-- The shift by one place that each round makes.
pub shift-Block : (i cb mask : ℕ) → Block i cb mask → Block (i + 1) cb (u32 (mask << 1))
shift-Block i cb mask here zero = ground (arith, bit-mod 32 0 (mask * 2), bit-double_zero mask)
shift-Block i cb mask here (suc b) =
    ground (arith, bit-mod 32 (suc b) (mask * 2), bit-double b mask, here b, bit_le b mask)

pub shifted-Block : (k cb mask : ℕ) → Block 0 cb mask → Block k cb (u32 (mask << k))
shifted-Block zero cb mask here b =
    let same : mask * 1 ≡ mask = omega arith in
    rw same (ground (arith, bit-mod 32 b mask, here b, bit_le b mask))
shifted-Block (suc k) cb mask here b =
    let up : suc k ≡ k + 1 = omega arith in
    let twice : u32 (mask << suc k) ≡ u32 (u32 (mask << k) << 1) =
      omega (arith, ap (λ (t : ℕ). mask * t) (pow-suc 2 k)) in
    rw (twice, up) (shift-Block k cb (u32 (mask << k)) (shifted-Block k cb mask here) b)

pub mask_at-Block : (slot slots : ℕ) → slots ≤ 8 → Block slot slots (mask_at slot slots)
mask_at-Block slot slots h = shifted-Block slot slots (block_mask slots) (block_mask-Block slots h)

-- No slot of the span is in use.
abbrev pub FreeSpan : ℕ → ℕ → ℕ → Type 0
FreeSpan i cb tlsmask = (b : ℕ) → span i cb b ≡ 1 → bit b tlsmask ≡ 0

-- The test of the search, which is true exactly at a free span.
abbrev is_free : ℕ → ℕ → Bool
is_free tlsmask mask = bit_and (bit_xor tlsmask mask) mask == mask

is_free-FreeSpan :
    (i cb mask tlsmask : ℕ) → Block i cb mask → is_free tlsmask mask ≡ true → FreeSpan i cb tlsmask
is_free-FreeSpan i cb mask tlsmask here h b inside = ground (
  arith,
  ap (bit b) ((==_iff (bit_and (bit_xor tlsmask mask) mask) mask).0 h),
  bit-bit_and b (bit_xor tlsmask mask) mask,
  bit-bit_xor b tlsmask mask,
  here b,
  bit_le b tlsmask,
)

FreeSpan-is_free :
    (i cb mask tlsmask : ℕ) → Block i cb mask → FreeSpan i cb tlsmask → is_free tlsmask mask ≡ true
FreeSpan-is_free i cb mask tlsmask here empty =
    (==_iff (bit_and (bit_xor tlsmask mask) mask) mask).1 (
      bit_ext _ _ (λ b. ground (
        arith,
        bit-bit_and b (bit_xor tlsmask mask) mask,
        bit-bit_xor b tlsmask mask,
        here b,
        empty b,
      )))

-- The answer of a search from slot `start`: the first free span, or none if there is none.
abbrev pub Search : ℕ → ℕ → ℕ → Option (ℕ × ℕ) → Type 0
Search start cb tlsmask none = (i : ℕ) → start ≤ i → i < 32 → ¬ FreeSpan i cb tlsmask
Search start cb tlsmask (some (i, mask)) =
    (i < 32)
    × Block i cb mask
    × FreeSpan i cb tlsmask
    × ((j : ℕ) → start ≤ j → j < i → ¬ FreeSpan j cb tlsmask)

-- A search from the slot behind, with what is known of the first.
Search-suc :
    (i cb tlsmask : ℕ) (answer : Option (ℕ × ℕ))
    → ¬ FreeSpan i cb tlsmask
    → Search (i + 1) cb tlsmask answer
    → Search i cb tlsmask answer
Search-suc i cb tlsmask none used later = λ j le lt. elim (Bool-cases (j == i)) [
  | inl same ↦ let e : j ≡ i = ground arith in rw e used
  | inr other ↦ later j (ground arith) lt
]
Search-suc i cb tlsmask (some (k, mask)) used (lt, here, empty, first) = (
  lt,
  here,
  empty,
  λ j le before. elim (Bool-cases (j == i)) [
    | inl same ↦ let e : j ≡ i = ground arith in rw e used
    | inr other ↦ first j (ground arith) before
  ],
)

pub find_block-Search :
    (rounds i cb mask tlsmask : ℕ)
    → i + rounds ≡ 32
    → Block i cb mask
    → Search i cb tlsmask (find_block rounds i mask tlsmask)
unfolding find_block
find_block-Search zero i cb mask tlsmask sum here = λ j le lt. absurd (omega arith)
find_block-Search (suc rounds) i cb mask tlsmask sum here =
    elim (Bool-cases (is_free tlsmask mask)) [
      | inl good ↦ rw good (
        omega arith,
        here,
        is_free-FreeSpan i cb mask tlsmask here good,
        λ j le before. absurd (omega arith),
      )
      | inr bad ↦ rw bad (
          Search-suc i cb tlsmask (find_block rounds (i + 1) (u32 (mask << 1)) tlsmask)
            (λ empty. cc (FreeSpan-is_free i cb mask tlsmask here empty))
            (find_block-Search rounds (i + 1) cb (u32 (mask << 1)) tlsmask (omega arith)
              (shift-Block i cb mask here)))
    ]

-- The digits of the mask with a block put in, and with one taken out.
pub bit-entered :
    (i cb mask tlsmask b : ℕ)
    → Block i cb mask
    → bit b (bit_or tlsmask mask) ≡ (if span i cb b == 1 then 1 else bit b tlsmask)
bit-entered i cb mask tlsmask b here =
    ground (arith, bit-bit_or b tlsmask mask, here b, bit_le b tlsmask)

pub bit-left :
    (i cb mask tlsmask b : ℕ)
    → Block i cb mask
    → b < 32
    → bit b (bit_and tlsmask (not_32 mask)) ≡ (if span i cb b == 1 then 0 else bit b tlsmask)
bit-left i cb mask tlsmask b here lt = ground (
  arith,
  bit-bit_and b tlsmask (not_32 mask),
  bit-bit_xor b mask (2 ^ 32 - 1),
  bit-ones 32 b,
  here b,
  bit_le b tlsmask,
)
