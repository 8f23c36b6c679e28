-- ===== src/Dwarf/Aranges/Encoded.antt =====
-- A section written from units of ranges is read back.
use mathlib.Core.List.{append_assoc}
use native.Mathlib.Nat.{pow-suc, div-add-mod}
use native.Mathlib.Numerals.{towards_suc}
use ine_debugger.Prelude.{ℕ, zero, suc, ◌+◌, ◌*◌, ◌/◌, ◌%◌, ◌^◌, ◌<◌, ◌≡◌, refl, ap, ◌∙◌, arith}
use ine_debugger.Prelude.{some, List, [], ◌∷◌, ◌++◌, length, drop}
use ine_debugger.Prelude.{length-append}
use ine_debugger.Prelude.Bits.{bit_or_shifted}
use ine_debugger.Prelude.Word.{u32, ◌<<◌}
use ine_debugger.Prelude.{drop_cons, drop_append}
use ine_debugger.Dwarf.Aranges.{read_field, entry_at}

-- A value in `n` bytes, lowest first.
abbrev pub le_bytes : ℕ → ℕ → List ℕ
le_bytes zero v = []
le_bytes (suc n) v = (v % 256) ∷ le_bytes n (v / 256)

pub length-le_bytes : (n v : ℕ) → length (le_bytes n v) ≡ n
length-le_bytes zero v = refl
length-le_bytes (suc n) v = ap suc (length-le_bytes n (v / 256))

eight_more : (i : ℕ) → 2 ^ (8 * (i + 1)) ≡ 256 * 2 ^ (8 * i)
eight_more i =
    let up : 8 * (i + 1) ≡ 8 * i + 8 = omega arith in
    ap (λ (t : ℕ). 2 ^ t) up ∙ simp towards_suc (omega arith)

split_byte : (v i : ℕ) → v * 2 ^ (8 * i) ≡ v % 256 * 2 ^ (8 * i) + v / 256 * 2 ^ (8 * (i + 1))
split_byte v i = omega (
  arith,
  ap (λ (t : ℕ). t * 2 ^ (8 * i)) (div-add-mod v 256),
  ap (λ (t : ℕ). v / 256 * t) (eight_more i),
)

byte_below :
    (value g i : ℕ) → value < 2 ^ (8 * i) → g < 256 → value + g * 2 ^ (8 * i) < 2 ^ (8 * (i + 1))
byte_below value g i h k = grind (arith, eight_more i)

-- A field is read back, from byte `i` on, above what has been read.
read_field_lem :
    (mem : List ℕ) (p n i v value : ℕ) (rest : List ℕ)
    → drop (p + i) mem ≡ le_bytes n v ++ rest
    → v < 256 ^ n
    → value < 2 ^ (8 * i)
    → value + v * 2 ^ (8 * i) < 2 ^ 32
    → read_field mem p n i value ≡ some (value + v * 2 ^ (8 * i))
unfolding read_field
read_field_lem mem p zero i v value rest e hv h fits =
    let none_left : value + v * 2 ^ (8 * i) ≡ value = grind arith in ground (arith, none_left)
read_field_lem mem p (suc n) i v value rest e hv h fits =
    let (e0, d) = drop_cons mem (p + i) _ _ e in
    let kept : u32 ((v % 256) << (8 * i)) ≡ v % 256 * 2 ^ (8 * i) = omega (arith, split_byte v i) in
    let joined = bit_or_shifted (8 * i) value (v % 256) h in
    let on : p + i + 1 ≡ p + (i + 1) = omega arith in
    let ih =
      read_field_lem mem p n (i + 1) (v / 256) (value + v % 256 * 2 ^ (8 * i)) rest (rw on at d)
        (omega (arith, pow-suc 256 n)) (byte_below value (v % 256) i h (omega arith))
        (omega (arith, split_byte v i)) in
    ground (arith, e0, kept, joined, ih, split_byte v i)

abbrev pub entry_bytes : ℕ → ℕ → ℕ × ℕ × ℕ → List ℕ
entry_bytes a s (addr, seg, len) = le_bytes a addr ++ (le_bytes s seg ++ le_bytes a len)

pub length-entry_bytes : (a s : ℕ) (e : ℕ × ℕ × ℕ) → length (entry_bytes a s e) ≡ a + s + a
length-entry_bytes a s (addr, seg, len) = omega (
  arith,
  length-append (le_bytes a addr) (le_bytes s seg ++ le_bytes a len),
  length-append (le_bytes s seg) (le_bytes a len),
  length-le_bytes a addr,
  length-le_bytes s seg,
  length-le_bytes a len,
)

-- Fields that their widths and 32 bits hold.
abbrev pub Fits : ℕ → ℕ → ℕ × ℕ × ℕ → Type 0
Fits a s (addr, seg, len) =
    (addr < 256 ^ a)
    × (addr < 2 ^ 32)
    × (seg < 256 ^ s)
    × (seg < 2 ^ 32)
    × (len < 256 ^ a)
    × (len < 2 ^ 32)

field_at :
    (mem : List ℕ) (p n v : ℕ) (rest : List ℕ)
    → drop p mem ≡ le_bytes n v ++ rest
    → v < 256 ^ n
    → v < 2 ^ 32
    → (read_field mem p n 0 0 ≡ some v) × (drop (p + n) mem ≡ rest)
field_at mem p n v rest e hv small =
    let here : p + 0 ≡ p = omega arith in
    (
      ground (arith, read_field_lem mem p n 0 v 0 rest (rw here e) hv (omega arith) (omega arith)),
      rw (length-le_bytes n v) at (drop_append (le_bytes n v) mem p rest e),
    )

pub entry_at-entry_bytes :
    (mem : List ℕ) (p a s : ℕ) (e : ℕ × ℕ × ℕ) (rest : List ℕ)
    → drop p mem ≡ entry_bytes a s e ++ rest
    → Fits a s e
    → (entry_at mem a s p ≡ some e) × (drop (p + (a + s + a)) mem ≡ rest)
unfolding entry_at
entry_at-entry_bytes mem p a s (addr, seg, len) rest d (h1, h2, h3, h4, h5, h6) =
    let d0 : drop p mem ≡ le_bytes a addr ++ (le_bytes s seg ++ (le_bytes a len ++ rest)) =
      d
      ∙ append_assoc (le_bytes a addr) (le_bytes s seg ++ le_bytes a len) rest
      ∙ ap (λ (t : List ℕ). le_bytes a addr ++ t)
          (append_assoc (le_bytes s seg) (le_bytes a len) rest) in
    let (r1, d1) = field_at mem p a addr _ d0 h1 h2 in
    let (r2, d2) = field_at mem (p + a) s seg _ d1 h3 h4 in
    let (r3, d3) = field_at mem (p + a + s) a len rest d2 h5 h6 in
    let here : p + (a + s + a) ≡ p + a + s + a = omega arith in
    (ground (arith, r1, r2, r3), rw here d3)
