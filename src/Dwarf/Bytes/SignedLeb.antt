-- ===== src/Dwarf/Bytes/SignedLeb.antt =====
-- LEB128 numbers with a sign are read back as they were written.
use native.Mathlib.Nat.{div-add-mod, pow-suc, add_assoc}
use native.Mathlib.Numerals.{one-add}
use ine_debugger.Prelude.{
  ℕ, zero, suc, ◌+◌, ◌-◌, ◌*◌, ◌/◌, ◌%◌, ◌^◌, ◌<◌, ◌≤◌, ◌≡◌, refl, ap, ◌∙◌, arith,
}
use ine_debugger.Prelude.{bit_and, Bool, true, false, ◌==◌, if◌then◌else◌, ltb, some}
use ine_debugger.Prelude.{List, [], ◌∷◌, ◌++◌, length, Bool-cases, inl, inr}
use ine_debugger.Prelude.Bits.{bit_or_shifted}
use ine_debugger.Prelude.Word.{u32, sub32, ◌<<◌}
use ine_debugger.Dwarf.Bytes.{leb_loop, read_sleb128, sign_extend}
use ine_debugger.Dwarf.Bytes.Leb.{
  low_group, last_byte, seven_more, read_last, read_inner, split_group, grown, drop_prefix, passes,
  passes_at,
}

-- A signed number: `m` for itself, or, where `neg`, for -(m + 1). Its 32-bit pattern, and its
-- groups: the last one keeps the sign in its bit 6.
abbrev pub pattern_of : Bool → ℕ → ℕ
pattern_of neg m = if neg then 2 ^ 32 - 1 - m else m

abbrev pub group_of : Bool → ℕ → ℕ
group_of neg g = if neg then 127 - g else g

unfoldable pub sleb_bytes : ℕ → Bool → ℕ → List ℕ
sleb_bytes zero neg m = group_of neg m ∷ []
sleb_bytes (suc k) neg m =
    let rest = sleb_bytes k neg (m / 128) in
    if ltb m 64 then group_of neg m ∷ [] else (group_of neg (m % 128) + 128) ∷ rest

sign_clear : (g : ℕ) → g < 64 → bit_and g 0x40 ≡ 0
unfolding passes
sign_clear g h = ground (arith, passes_at (λ x. bit_and x 0x40 == 0) 64 {i = g} h refl)

sign_set : (m : ℕ) → m < 64 → bit_and (127 - m) 0x40 ≡ 64
unfolding passes
sign_set m h = ground (arith, passes_at (λ x. bit_and (127 - x) 0x40 == 64) 64 {i = m} h refl)

-- What a signed reading answers in the end.
abbrev pub Reads : List ℕ → ℕ → ℕ → ℕ → ℕ → ℕ → Type 0
Reads bytes acc shift count total used =
    (r : ℕ) × (s : ℕ) × (b : ℕ) × (leb_loop bytes acc shift count ≡ some (r, s, b, used))
    × (sign_extend r s b ≡ total)

last_positive :
    (m acc shift count : ℕ) (rest : List ℕ)
    → m < 64
    → acc < 2 ^ shift
    → acc + m * 2 ^ shift < 2 ^ 32
    → Reads (m ∷ rest) acc shift count (acc + m * 2 ^ shift) (count + 1)
unfolding sign_extend
last_positive m acc shift count rest hm h fits = (
  acc + m * 2 ^ shift,
  shift + 7,
  m,
  read_last m acc shift count rest (omega arith) h fits,
  ground (arith, sign_clear m hm),
)

-- The sign bits above a group that ends below bit 32.
extend_at :
    (q r s m : ℕ)
    → m < 64
    → s < 32
    → sub32 0 (1 << s) ≡ q * 2 ^ s
    → r < 2 ^ s
    → sign_extend r s (127 - m) ≡ r + q * 2 ^ s
unfolding sign_extend
extend_at q r s m hm hs e h = ground (arith, sign_set m hm, e, bit_or_shifted s r q h)

-- The fifth group keeps four bits.
read_fifth :
    (g acc count : ℕ) (rest : List ℕ)
    → g < 128
    → 112 ≤ g
    → acc < 2 ^ 28
    → leb_loop (g ∷ rest) acc 28 count ≡ some (acc + (g - 112) * 2 ^ 28, 35, g, count + 1)
unfolding leb_loop
read_fifth g acc count rest hg lo h =
    let kept : u32 (g << 28) ≡ (g - 112) * 2 ^ 28 = omega arith in
    ground (arith, low_group g, last_byte g, kept, bit_or_shifted 28 acc (g - 112) h)

last_negative :
    (j m acc count : ℕ) (rest : List ℕ)
    → j ≤ 4
    → m < 64
    → acc < 2 ^ (7 * j)
    → (m + 1) * 2 ^ (7 * j) ≤ 2 ^ 31
    → Reads ((127 - m) ∷ rest) acc (7 * j) count (2 ^ 32 + acc - (m + 1) * 2 ^ (7 * j)) (count + 1)
last_negative zero m acc count rest hj hm h fits = (
  acc + (127 - m) * 1,
  7,
  127 - m,
  read_last (127 - m) acc 0 count rest (omega arith) h (omega arith),
  extend_at 33554431 (acc + (127 - m) * 1) 7 m hm (omega arith) refl (omega arith) ∙ omega arith,
)
last_negative (suc zero) m acc count rest hj hm h fits = (
  acc + (127 - m) * 2 ^ 7,
  14,
  127 - m,
  read_last (127 - m) acc 7 count rest (omega arith) h (omega arith),
  extend_at 262143 (acc + (127 - m) * 2 ^ 7) 14 m hm (omega arith) refl (omega arith) ∙ omega arith,
)
last_negative (suc (suc zero)) m acc count rest hj hm h fits = (
  acc + (127 - m) * 2 ^ 14,
  21,
  127 - m,
  read_last (127 - m) acc 14 count rest (omega arith) h (omega arith),
  extend_at 2047 (acc + (127 - m) * 2 ^ 14) 21 m hm (omega arith) refl (omega arith) ∙ omega arith,
)
last_negative (suc (suc (suc zero))) m acc count rest hj hm h fits = (
  acc + (127 - m) * 2 ^ 21,
  28,
  127 - m,
  read_last (127 - m) acc 21 count rest (omega arith) h (omega arith),
  extend_at 15 (acc + (127 - m) * 2 ^ 21) 28 m hm (omega arith) refl (omega arith) ∙ omega arith,
)
last_negative (suc (suc (suc (suc zero)))) m acc count rest hj hm h fits = (
  acc + (15 - m) * 2 ^ 28,
  35,
  127 - m,
  read_fifth (127 - m) acc count rest (omega arith) (omega arith) h ∙ ground arith,
  unfold sign_extend in ground arith,
)
last_negative (suc (suc (suc (suc (suc j))))) m acc count rest hj hm h fits = absurd (omega arith)

-- The number that is read where `m` is still to come from bit `shift` on.
abbrev pub total_of : Bool → ℕ → ℕ → ℕ → ℕ
total_of neg m acc shift = if neg then 2 ^ 32 + acc - (m + 1) * 2 ^ shift else acc + m * 2 ^ shift

last_group :
    (neg : Bool) (j m acc count : ℕ) (rest : List ℕ)
    → j ≤ 4
    → m < 64
    → acc < 2 ^ (7 * j)
    → (m + 1) * 2 ^ (7 * j) ≤ 2 ^ 31
    → Reads (group_of neg m ∷ rest) acc (7 * j) count (total_of neg m acc (7 * j)) (count + 1)
last_group true j m acc count rest hj hm h fits = last_negative j m acc count rest hj hm h fits
last_group false j m acc count rest hj hm h fits =
    last_positive m acc (7 * j) count rest hm h (room j m acc hj h fits)
  where
    room :
        (j m acc : ℕ)
        → j ≤ 4
        → acc < 2 ^ (7 * j)
        → (m + 1) * 2 ^ (7 * j) ≤ 2 ^ 31
        → acc + m * 2 ^ (7 * j) < 2 ^ 32
    room j m acc hj h fits = omega arith

group_room :
    (m acc unit : ℕ)
    → acc < unit
    → (m + 1) * unit ≤ 2 ^ 31
    → 64 ≤ m
    → acc + (127 - m % 128) * unit < 2 ^ 32
group_room m acc unit h fits big =
    let few : 65 * unit ≤ (m + 1) * unit = grind arith in
    let most : (127 - m % 128) * unit ≤ 127 * unit = grind arith in omega (arith, few, most)

group_total :
    (m acc unit up : ℕ)
    → up ≡ 128 * unit
    → (m + 1) * unit ≤ 2 ^ 31
    → 2 ^ 32 + (acc + (127 - m % 128) * unit) - (m / 128 + 1) * up ≡ 2 ^ 32 + acc - (m + 1) * unit
group_total m acc unit up e fits =
    let r = m % 128 in
    let u = 127 - r in
    let parts : u + r ≡ 127 = omega arith in
    let sum : u * unit + r * unit ≡ 127 * unit = omega (arith, ap (λ (t : ℕ). t * unit) parts) in
    let high : (m / 128 + 1) * up ≡ (m / 128 + 1) * (128 * unit) =
      ap (λ (t : ℕ). (m / 128 + 1) * t) e in
    let whole : 128 * (m / 128) * unit + r * unit ≡ m * unit =
      omega (arith, ap (λ (t : ℕ). t * unit) (div-add-mod m 128)) in
    omega (arith, sum, high, whole)

-- A group in front of the rest of a reading.
more_groups :
    (neg : Bool) (j m acc count used : ℕ) (bytes : List ℕ)
    → acc < 2 ^ (7 * j)
    → (m + 1) * 2 ^ (7 * j) ≤ 2 ^ 31
    → 64 ≤ m
    → Reads bytes
        (acc + group_of neg (m % 128) * 2 ^ (7 * j))
        (7 * j + 7)
        (count + 1)
        (total_of neg (m / 128) (acc + group_of neg (m % 128) * 2 ^ (7 * j)) (7 * j + 7))
        used
    → Reads
        ((group_of neg (m % 128) + 128) ∷ bytes)
        acc
        (7 * j)
        count
        (total_of neg m acc (7 * j))
        used
more_groups true j m acc count used bytes h fits big (r, s, b, e, t) = (
  r,
  s,
  b,
  read_inner (127 - m % 128) acc (7 * j) count bytes (omega arith) h
        (group_room m acc (2 ^ (7 * j)) h fits big)
      ∙ e,
  t ∙ group_total m acc (2 ^ (7 * j)) (2 ^ (7 * j + 7)) (seven_more (7 * j)) fits,
)
more_groups false j m acc count used bytes h fits big (r, s, b, e, t) = (
  r,
  s,
  b,
  read_inner (m % 128) acc (7 * j) count bytes (omega arith) h
        (omega (arith, split_group m (7 * j)))
      ∙ e,
  t ∙ omega (arith, split_group m (7 * j)),
)

group_of-lt : (neg : Bool) (m : ℕ) → group_of neg (m % 128) < 128
group_of-lt true m = omega arith
group_of-lt false m = omega arith

-- A bound of 31 bits passes on to the rest of the groups.
carry :
    (j m : ℕ) → j ≤ 3 → (m + 1) * 2 ^ (7 * j) ≤ 2 ^ 31 → (m / 128 + 1) * 2 ^ (7 * (j + 1)) ≤ 2 ^ 31
carry zero m hj h = omega arith
carry (suc zero) m hj h = omega arith
carry (suc (suc zero)) m hj h = omega arith
carry (suc (suc (suc zero))) m hj h = omega arith
carry (suc (suc (suc (suc j)))) m hj h = absurd (omega arith)

pub leb_loop-sleb :
    (k j : ℕ) (neg : Bool) (m acc count : ℕ) (rest : List ℕ)
    → k + j ≡ 4
    → m < 64 * 128 ^ k
    → acc < 2 ^ (7 * j)
    → (m + 1) * 2 ^ (7 * j) ≤ 2 ^ 31
    → Reads
        (sleb_bytes k neg m ++ rest)
        acc
        (7 * j)
        count
        (total_of neg m acc (7 * j))
        (count + length (sleb_bytes k neg m))
unfolding sleb_bytes
leb_loop-sleb zero j neg m acc count rest hk hm h fits =
    last_group neg j m acc count rest (omega arith) (omega arith) h fits
leb_loop-sleb (suc k) j neg m acc count rest hk hm h fits = elim (Bool-cases (ltb m 64)) [
  | inl small ↦ rw small (last_group neg j m acc count rest (omega arith) (ground arith) h fits)
  | inr large ↦
      let g = group_of neg (m % 128) in
      let up : 7 * (j + 1) ≡ 7 * j + 7 = omega arith in
      let ih =
        leb_loop-sleb k (j + 1) neg (m / 128) (acc + g * 2 ^ (7 * j)) (count + 1) rest (omega arith)
          (omega (arith, pow-suc 128 k)) (rw up (grown acc g (7 * j) h (group_of-lt neg m)))
          (carry j m (omega arith) fits) in
      rw large (
        more_groups neg j m acc count (count + suc (length (sleb_bytes k neg (m / 128))))
          (sleb_bytes k neg (m / 128) ++ rest) h fits (ground arith)
          (rw (up, add_assoc count 1 (length (sleb_bytes k neg (m / 128))), one-add) at ih))
]

-- A signed number, written in up to five groups behind any bytes, is read back as its 32-bit
-- pattern, and the pointer stands behind it.
pub read_sleb128-sleb_bytes :
    (neg : Bool) (m p : ℕ) (front rest : List ℕ)
    → m < 2 ^ 31
    → p ≡ length front
    → read_sleb128 (front ++ (sleb_bytes 4 neg m ++ rest)) p
      ≡ some (pattern_of neg m, p + length (sleb_bytes 4 neg m))
unfolding read_sleb128
read_sleb128-sleb_bytes neg m p front rest hm hp =
    let (r, s, b, e, t) =
      leb_loop-sleb 4 0 neg m 0 0 rest refl (omega arith) (omega arith) (omega arith) in
    rw (drop_prefix front (sleb_bytes 4 neg m ++ rest) p hp) (ground (arith, e, t))
