-- ===== src/Prelude/Digits.antt =====
-- The binary digits of a number one by one: how the operations act on them, and that they determine
-- the number.
use Prim.Native.Nat.{ℕ, zero, suc, ◌+◌, ◌-◌, ◌*◌, ◌/◌, ◌%◌, ◌^◌, ◌≤◌, ◌<◌, min, max}
use Prim.Native.Nat.{bit_and, bit_or, bit_xor, differ}
use mathlib.Core.Path.{◌≡◌, refl, ap, ◌∙◌}
use native.Mathlib.Omega.{arith}
use native.Mathlib.Nat.{pow-suc, one-le-pow}
use ine_debugger.Prelude.Tests.{ltb, if◌then◌else◌}
use ine_debugger.Prelude.Bits.{bit_and_digit, bit_or_digit, bit_xor_digit, bit_and_mask}

-- Digit `b` of a number, the lowest being number 0.
unfoldable pub bit : ℕ → ℕ → ℕ
bit zero x = x % 2
bit (suc b) x = bit b (x / 2)

pub bit_le : (b x : ℕ) → bit b x ≤ 1
unfolding bit
bit_le zero x = omega arith
bit_le (suc b) x = bit_le b (x / 2)

pub bit-bit_and : (b x y : ℕ) → bit b (bit_and x y) ≡ min (bit b x) (bit b y)
unfolding bit
bit-bit_and zero x y = omega (arith, bit_and_digit x y)
bit-bit_and (suc b) x y =
    let half : bit_and x y / 2 ≡ bit_and (x / 2) (y / 2) = omega (arith, bit_and_digit x y) in
    rw half (bit-bit_and b (x / 2) (y / 2))

pub bit-bit_or : (b x y : ℕ) → bit b (bit_or x y) ≡ max (bit b x) (bit b y)
unfolding bit
bit-bit_or zero x y = omega (arith, bit_or_digit x y)
bit-bit_or (suc b) x y =
    let half : bit_or x y / 2 ≡ bit_or (x / 2) (y / 2) = omega (arith, bit_or_digit x y) in
    rw half (bit-bit_or b (x / 2) (y / 2))

differ_mod : (x y : ℕ) → x < 2 → y < 2 → differ x y ≡ (x + y) % 2
differ_mod zero y h k = omega arith
differ_mod (suc zero) zero h k = refl
differ_mod (suc zero) (suc zero) h k = refl
differ_mod (suc zero) (suc (suc y)) h k = absurd (omega arith)
differ_mod (suc (suc x)) y h k = absurd (omega arith)

pub bit-bit_xor : (b x y : ℕ) → bit b (bit_xor x y) ≡ (bit b x + bit b y) % 2
unfolding bit
bit-bit_xor zero x y =
    omega (arith, bit_xor_digit x y, differ_mod (x % 2) (y % 2) (omega arith) (omega arith))
bit-bit_xor (suc b) x y =
    let half : bit_xor x y / 2 ≡ bit_xor (x / 2) (y / 2) =
      omega (arith, bit_xor_digit x y, differ_mod (x % 2) (y % 2) (omega arith) (omega arith)) in
    rw half (bit-bit_xor b (x / 2) (y / 2))

pub bit-zero : (b : ℕ) → bit b 0 ≡ 0
unfolding bit
bit-zero zero = refl
bit-zero (suc b) = bit-zero b

-- The digits of `2 ^ k - 1`.
pub bit-ones : (k b : ℕ) → bit b (2 ^ k - 1) ≡ (if ltb b k then 1 else 0)
unfolding bit
bit-ones zero b = bit-zero b ∙ ground arith
bit-ones (suc k) zero = ground (arith, pow-suc 2 k, one-le-pow k 2)
bit-ones (suc k) (suc b) =
    let half : (2 ^ suc k - 1) / 2 ≡ 2 ^ k - 1 = omega (arith, pow-suc 2 k, one-le-pow k 2) in
    rw half (bit-ones k b ∙ ground arith)

-- The digits that a cut to a width keeps.
pub bit-mod : (k b x : ℕ) → bit b (x % 2 ^ k) ≡ min (bit b x) (if ltb b k then 1 else 0)
bit-mod k b x =
    let mask = bit_and_mask k x in
    let digit = bit-bit_and b x (2 ^ k - 1) in
    let ones = bit-ones k b in rw mask at digit ∙ ap (λ (t : ℕ). min (bit b x) t) ones

-- A shift by one place.
pub bit-double : (b x : ℕ) → bit (suc b) (x * 2) ≡ bit b x
unfolding bit
bit-double b x = let half : x * 2 / 2 ≡ x = omega arith in rw half refl

pub bit-double_zero : (x : ℕ) → bit 0 (x * 2) ≡ 0
unfolding bit
bit-double_zero x = omega arith

-- Numbers with the same digits are the same.
ext_below : (bound x y : ℕ) → x + y ≤ bound → ((b : ℕ) → bit b x ≡ bit b y) → x ≡ y
unfolding bit
ext_below zero x y le same = omega arith
ext_below (suc bound) x y le same =
    let half = ext_below bound (x / 2) (y / 2) (omega arith) (λ b. same (suc b)) in
    omega (arith, same 0, half)

pub bit_ext : (x y : ℕ) → ((b : ℕ) → bit b x ≡ bit b y) → x ≡ y
bit_ext x y same = ext_below (x + y) x y (omega arith) same
