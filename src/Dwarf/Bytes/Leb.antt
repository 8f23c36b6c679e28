-- ===== src/Dwarf/Bytes/Leb.antt =====
-- LEB128 numbers without a sign are read back as they were written.
use native.Mathlib.Nat.{div-add-mod}
use native.Mathlib.Numerals.{towards_suc}
use ine_debugger.Prelude.{ℕ, zero, suc, ◌+◌, ◌*◌, ◌/◌, ◌%◌, ◌^◌, ◌<◌, ◌≡◌, refl, ap, ◌∙◌, arith}
use ine_debugger.Prelude.{bit_or, bit_and, Bool, true, false, ◌==◌, if◌then◌else◌, ltb, some}
use ine_debugger.Prelude.{List, [], ◌∷◌, ◌++◌, length, drop, drop-append, Bool-cases, inl, inr}
use ine_debugger.Prelude.Bits.{bit_or_shifted, bit_and_mask}
use ine_debugger.Prelude.Word.{u32, ◌<<◌, IsU32}
use ine_debugger.Dwarf.Bytes.{leb_loop, read_uleb128}

-- `v` in groups of seven bits, lowest first, for `v` below 128 ^ (k + 1).
unfoldable pub uleb_bytes : ℕ → ℕ → List ℕ
uleb_bytes zero v = v ∷ []
uleb_bytes (suc k) v =
    let rest = uleb_bytes k (v / 128) in if ltb v 128 then v ∷ [] else (v % 128 + 128) ∷ rest

pub low_group : (g : ℕ) → g < 128 → bit_and g 0x7f ≡ g
low_group g h = omega (arith, bit_and_mask 7 g)

low_group_more : (g : ℕ) → g < 128 → bit_and (g + 128) 0x7f ≡ g
low_group_more g h = omega (arith, bit_and_mask 7 (g + 128))

-- A test that is run on every number below a limit.
module _ (test : ℕ → Bool) where
  unfoldable pub passes : ℕ → Bool
  passes zero = true
  passes (suc limit) = if test limit then passes limit else false

  pub passes_at : (limit : ℕ) {i : ℕ} → i < limit → passes limit ≡ true → test i ≡ true
  unfolding passes
  passes_at zero below all = absurd (omega (arith, below))
  passes_at (suc limit) {i = i} below all = elim (Bool-cases (i == limit)) [
    | inl last ↦ let eq : i ≡ limit = ground (arith, last) in ground (arith, eq, all)
    | inr earlier ↦
        let lower : i < limit = ground (arith, earlier, below) in
        passes_at limit lower (ground (arith, all))
  ]

-- Every byte below 128 has a clear top bit, and adding 128 sets it.
pub last_byte : (g : ℕ) → g < 128 → bit_and g 0x80 ≡ 0
unfolding passes
last_byte g h = ground (arith, passes_at (λ x. bit_and x 0x80 == 0) 128 {i = g} h refl)

inner_byte : (g : ℕ) → g < 128 → bit_and (g + 128) 0x80 ≡ 128
unfolding passes
inner_byte g h = ground (arith, passes_at (λ x. bit_and (x + 128) 0x80 == 128) 128 {i = g} h refl)

-- A group that is joined above what has been read, as long as it stays in 32 bits.
pub join :
    (acc g shift : ℕ)
    → acc < 2 ^ shift
    → acc + g * 2 ^ shift < 2 ^ 32
    → bit_or acc (u32 (g << shift)) ≡ acc + g * 2 ^ shift
join acc g shift h fits = ap (λ (t : ℕ). bit_or acc t) small ∙ bit_or_shifted shift acc g h
  where
    small : u32 (g << shift) ≡ g * 2 ^ shift
    small = omega arith

pub seven_more : (s : ℕ) → 2 ^ (s + 7) ≡ 128 * 2 ^ s
seven_more s = simp towards_suc (omega arith)

pub read_last :
    (g acc shift count : ℕ) (rest : List ℕ)
    → g < 128
    → acc < 2 ^ shift
    → acc + g * 2 ^ shift < 2 ^ 32
    → leb_loop (g ∷ rest) acc shift count ≡ some (acc + g * 2 ^ shift, shift + 7, g, count + 1)
unfolding leb_loop
read_last g acc shift count rest hg h fits =
    ground (arith, low_group g, last_byte g, join acc g shift h fits)

pub read_inner :
    (g acc shift count : ℕ) (rest : List ℕ)
    → g < 128
    → acc < 2 ^ shift
    → acc + g * 2 ^ shift < 2 ^ 32
    → leb_loop ((g + 128) ∷ rest) acc shift count
      ≡ leb_loop rest (acc + g * 2 ^ shift) (shift + 7) (count + 1)
unfolding leb_loop
read_inner g acc shift count rest hg h fits =
    ground (arith, low_group_more g, inner_byte g, join acc g shift h fits)

-- The lowest group of `v` and the rest, both shifted by `s`.
pub split_group : (v s : ℕ) → v * 2 ^ s ≡ v % 128 * 2 ^ s + v / 128 * 2 ^ (s + 7)
split_group v s = omega (
  arith,
  ap (λ (t : ℕ). t * 2 ^ s) (div-add-mod v 128),
  ap (λ (t : ℕ). v / 128 * t) (seven_more s),
)

pub grown : (acc g s : ℕ) → acc < 2 ^ s → g < 128 → acc + g * 2 ^ s < 2 ^ (s + 7)
grown acc g s h k = grind (arith, seven_more s)

pub leb_loop-uleb :
    (k v acc shift count : ℕ) (rest : List ℕ)
    → v < 128 ^ suc k
    → acc < 2 ^ shift
    → acc + v * 2 ^ shift < 2 ^ 32
    → (shift' : ℕ) × (byte : ℕ) × (leb_loop (uleb_bytes k v ++ rest) acc shift count
        ≡ some (acc + v * 2 ^ shift, shift', byte, count + length (uleb_bytes k v)))
unfolding uleb_bytes
leb_loop-uleb zero v acc shift count rest hv h fits =
    (shift + 7, v, read_last v acc shift count rest (omega arith) h fits)
leb_loop-uleb (suc k) v acc shift count rest hv h fits = elim (Bool-cases (ltb v 128)) [
  | inl small ↦ (shift + 7, v, rw small (read_last v acc shift count rest (ground arith) h fits))
  | inr large ↦
      let g = v % 128 in
      let (s, b, e) =
        leb_loop-uleb k (v / 128) (acc + g * 2 ^ shift) (shift + 7) (count + 1) rest (omega arith)
          (grown acc g shift h (omega arith)) (omega (arith, split_group v shift)) in
      (
        s,
        b,
        rw large (
            read_inner g acc shift count (uleb_bytes k (v / 128) ++ rest) (omega arith) h
              (omega (arith, split_group v shift))
            ∙ ground (arith, e, split_group v shift)),
      )
]

pub drop_prefix : (front rest : List ℕ) (p : ℕ) → p ≡ length front → drop p (front ++ rest) ≡ rest
drop_prefix front rest p e = rw e (drop-append front rest)

-- An unsigned number, written in up to five groups behind any bytes, is read back, and the
-- pointer stands behind it.
pub read_uleb128-uleb_bytes :
    (v p : ℕ) (front rest : List ℕ)
    → IsU32 v
    → p ≡ length front
    → read_uleb128 (front ++ (uleb_bytes 4 v ++ rest)) p ≡ some (v, p + length (uleb_bytes 4 v))
unfolding read_uleb128
read_uleb128-uleb_bytes v p front rest hv hp =
    let (s, b, e) = leb_loop-uleb 4 v 0 0 0 rest (omega arith) (omega arith) (omega arith) in
    rw (drop_prefix front (uleb_bytes 4 v ++ rest) p hp) (ground (arith, e))
