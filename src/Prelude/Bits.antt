-- ===== src/Prelude/Bits.antt =====
-- Masks and the union of disjoint bit fields as arithmetic, for every width.
use Prim.Native.Nat.{ℕ, zero, suc, ◌+◌, ◌-◌, ◌*◌, ◌/◌, ◌%◌, ◌^◌, ◌≤◌, ◌<◌, min, max}
use Prim.Native.Nat.{
  bit_and, bit_or, bit_xor, digits, differ, bit_and-bitwise, bit_or-bitwise, bit_xor-bitwise,
}
use mathlib.Core.Path.{◌≡◌, refl, ap, sym, ◌∙◌}
use native.Mathlib.Omega.{arith}
use native.Mathlib.Nat.{pow-suc, one-le-pow, div-add-mod'}

-- An operation on binary digits, by the recursion that the native operation stands for.
module _ (z : ℕ → ℕ) (f op : ℕ → ℕ → ℕ) (law : (x y : ℕ) → op x y ≡ digits z f x x y) where
  -- One more unit of fuel than enough changes nothing; so does any surplus.
  one_more : (fuel x y : ℕ) → x ≤ fuel → digits z f (suc fuel) x y ≡ digits z f fuel x y
  one_more zero (suc x) y le = absurd (omega arith)
  one_more zero zero y le = refl
  one_more (suc fuel) zero y le = refl
  one_more (suc fuel) (suc x) y le =
      let half = one_more fuel (suc x / 2) (y / 2) (omega arith) in omega (arith, half)

  surplus :
      (extra total fuel x y : ℕ)
      → total ≡ extra + fuel
      → x ≤ fuel
      → digits z f total x y ≡ digits z f fuel x y
  surplus zero total fuel x y sum le = ap (λ (t : ℕ). digits z f t x y) (omega arith)
  surplus (suc extra) zero fuel x y sum le = absurd (omega arith)
  surplus (suc extra) (suc total) fuel x y sum le =
      one_more total x y (omega arith) ∙ surplus extra total fuel x y (omega arith) le

  -- The lowest digit, and the digits above it.
  low_digit : (x y : ℕ) → op (suc x) y ≡ op (suc x / 2) (y / 2) * 2 + f (suc x % 2) (y % 2)
  low_digit x y =
      let above =
        surplus (x - suc x / 2) x (suc x / 2) (suc x / 2) (y / 2) (omega arith) (omega arith) in
      omega (arith, law (suc x) y, law (suc x / 2) (y / 2), above)

  -- With 0 on the right, the operation is any function that agrees with it digit by digit.
  with_zero :
      (g : ℕ → ℕ)
      → op 0 0 ≡ g 0
      → ((x : ℕ) → g (suc x) ≡ g (suc x / 2) * 2 + f (suc x % 2) 0)
      → (bound x : ℕ) → x ≤ bound
      → op x 0 ≡ g x
  with_zero g at_zero digit bound zero le = at_zero
  with_zero g at_zero digit zero (suc x) le = absurd (omega arith)
  with_zero g at_zero digit (suc bound) (suc x) le =
      omega
        (arith, low_digit x 0, digit x, with_zero g at_zero digit bound (suc x / 2) (omega arith))

pub zero-bit_or : (b : ℕ) → bit_or 0 b ≡ b
zero-bit_or b = omega (arith, bit_or-bitwise 0 b)

pub bit_or_digit : (x y : ℕ) → bit_or x y ≡ bit_or (x / 2) (y / 2) * 2 + max (x % 2) (y % 2)
bit_or_digit zero y =
    let low = zero-bit_or y in let high = zero-bit_or (y / 2) in omega (arith, low, high)
bit_or_digit (suc x) y = low_digit (λ d. d) max bit_or bit_or-bitwise x y

pub bit_xor_digit : (x y : ℕ) → bit_xor x y ≡ bit_xor (x / 2) (y / 2) * 2 + differ (x % 2) (y % 2)
bit_xor_digit zero y =
    let low = bit_xor-bitwise 0 y in
    let high = bit_xor-bitwise 0 (y / 2) in omega (arith, low, high)
bit_xor_digit (suc x) y = low_digit (λ d. d) differ bit_xor bit_xor-bitwise x y

pub bit_and_digit : (x y : ℕ) → bit_and x y ≡ bit_and (x / 2) (y / 2) * 2 + min (x % 2) (y % 2)
bit_and_digit zero y =
    let low = bit_and-bitwise 0 y in
    let high = bit_and-bitwise 0 (y / 2) in omega (arith, low, high)
bit_and_digit (suc x) y = low_digit (λ d. 0) min bit_and bit_and-bitwise x y

bit_or-zero : (x : ℕ) → bit_or x 0 ≡ x
bit_or-zero x =
    with_zero (λ d. d) max bit_or bit_or-bitwise (λ d. d) refl (λ d. omega arith) x x (omega arith)

bit_and-zero : (x : ℕ) → bit_and x 0 ≡ 0
bit_and-zero x =
    with_zero (λ d. 0) min bit_and bit_and-bitwise (λ d. 0) refl (λ d. omega arith) x x
      (omega arith)

double_field : (q k : ℕ) → q * 2 ^ suc k ≡ 2 * (q * 2 ^ k)
double_field q k = let power = pow-suc 2 k in ap (λ (u : ℕ). q * u) power ∙ omega arith

-- A field of `k` bits joined with a value shifted by `k`, in either order, is their sum.
pub bit_or_shifted : (k r q : ℕ) → r < 2 ^ k → bit_or r (q * 2 ^ k) ≡ r + q * 2 ^ k
bit_or_shifted zero zero q h = omega (arith, zero-bit_or (q * 1))
bit_or_shifted zero (suc r) q h = absurd (omega arith)
bit_or_shifted (suc k) r q h = omega (
  arith,
  bit_or_digit r (q * 2 ^ suc k),
  double_field q k,
  pow-suc 2 k,
  ap (λ (t : ℕ). bit_or (r / 2) t) half,
  bit_or_shifted k (r / 2) q (omega (arith, pow-suc 2 k)),
)
  where
    half : q * 2 ^ suc k / 2 ≡ q * 2 ^ k
    half = omega (arith, double_field q k)

pub shifted-bit_or : (k q r : ℕ) → r < 2 ^ k → bit_or (q * 2 ^ k) r ≡ q * 2 ^ k + r
shifted-bit_or zero q zero h = omega (arith, bit_or-zero (q * 1))
shifted-bit_or zero q (suc r) h = absurd (omega arith)
shifted-bit_or (suc k) q r h = omega (
  arith,
  bit_or_digit (q * 2 ^ suc k) r,
  double_field q k,
  pow-suc 2 k,
  ap (λ (t : ℕ). bit_or t (r / 2)) half,
  shifted-bit_or k q (r / 2) (omega (arith, pow-suc 2 k)),
)
  where
    half : q * 2 ^ suc k / 2 ≡ q * 2 ^ k
    half = omega (arith, double_field q k)

mask_below : (k q r : ℕ) → r < 2 ^ k → bit_and (q * 2 ^ k + r) (2 ^ k - 1) ≡ r
mask_below zero q r h = omega (arith, bit_and-zero (q * 1 + r))
mask_below (suc k) q r h = omega (
  arith,
  bit_and_digit (q * 2 ^ suc k + r) (2 ^ suc k - 1),
  ap (λ (t : ℕ). bit_and t ((2 ^ suc k - 1) / 2)) half,
  ap (λ (t : ℕ). bit_and (q * 2 ^ k + r / 2) t) half_mask,
  mask_below k q (r / 2) (omega (arith, pow-suc 2 k)),
  double_field q k,
  pow-suc 2 k,
  one-le-pow k 2,
)
  where
    half : (q * 2 ^ suc k + r) / 2 ≡ q * 2 ^ k + r / 2
    half = omega (arith, double_field q k)

    half_mask : (2 ^ suc k - 1) / 2 ≡ 2 ^ k - 1
    half_mask = omega (arith, pow-suc 2 k, one-le-pow k 2)

-- The mask `2 ^ k - 1` takes the remainder by `2 ^ k`.
pub bit_and_mask : (k a : ℕ) → bit_and a (2 ^ k - 1) ≡ a % 2 ^ k
bit_and_mask k a =
    ap (λ (t : ℕ). bit_and t (2 ^ k - 1)) (sym split)
    ∙ mask_below k (a / 2 ^ k) (a % 2 ^ k) (grind (arith, one-le-pow k 2))
  where
    split : a / 2 ^ k * 2 ^ k + a % 2 ^ k ≡ a
    split = div-add-mod' a (2 ^ k)
