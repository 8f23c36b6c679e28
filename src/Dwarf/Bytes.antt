-- ===== src/Dwarf/Bytes.antt =====
-- dwarf_info.c: little-endian words and LEB128 numbers (read_u16_le to read_sleb128). Memory is a
-- list of bytes, and a pointer is an offset into it; `none` is a read past its end. Signed results
-- are 32-bit patterns.
pub mod Leb
pub mod SignedLeb
mod Runs
use ine_debugger.Prelude.{ℕ, zero, suc, ◌+◌, ◌-◌, ◌*◌, ◌/◌, ◌%◌, ◌^◌, bit_or, bit_and}
use ine_debugger.Prelude.{Bool, true, false, ◌&&◌, not, Option, none, some, List, [], ◌∷◌}
use ine_debugger.Prelude.{ltb, ◌==◌, if◌then◌else◌, get_elem?, drop}
use ine_debugger.Prelude.Word.{u32, add32, sub32, ◌<<◌}

infixl 5 ◌>>=◌
abbrev pub ◌>>=◌ {ℓ κ} : {A : Type ℓ} {B : Type κ} → Option A → (A → Option B) → Option B
none >>= f = none
some a >>= f = f a

unfoldable pub read_u16_le : List ℕ → ℕ → Option ℕ
read_u16_le mem p = do b0 ← get_elem? mem p; b1 ← get_elem? mem (p + 1); some (bit_or b0 (b1 << 8))

unfoldable pub read_u32_le : List ℕ → ℕ → Option ℕ
read_u32_le mem p = do
  b0 ← get_elem? mem p
  b1 ← get_elem? mem (p + 1)
  b2 ← get_elem? mem (p + 2)
  b3 ← get_elem? mem (p + 3)
  some (bit_or (bit_or (bit_or b0 (b1 << 8)) (b2 << 16)) (b3 << 24))

-- The loop of both readers over the bytes from `*pp` on: the bits read, the next shift, the last
-- byte, and the number of bytes. C leaves shifts by 32 and more undefined; here they give 0.
unfoldable pub leb_loop : List ℕ → ℕ → ℕ → ℕ → Option (ℕ × ℕ × ℕ × ℕ)
leb_loop [] result shift count = none
leb_loop (byte ∷ rest) result shift count =
    let result' = bit_or result (u32 (bit_and byte 0x7f << shift)) in
    let more = leb_loop rest result' (shift + 7) (count + 1) in
    if bit_and byte 0x80 == 0 then some (result', shift + 7, byte, count + 1) else more

-- The value and the pointer behind it.
unfoldable pub read_uleb128 : List ℕ → ℕ → Option (ℕ × ℕ)
unfolding leb_loop
read_uleb128 mem p = do
  (result, shift, byte, count) ← leb_loop (drop p mem) 0 0 0
  some (result, p + count)

-- `if (shift < 32 && (byte & 0x40)) result |= -((int32_t)1 << shift)`
unfoldable pub sign_extend : ℕ → ℕ → ℕ → ℕ
sign_extend result shift byte =
    if ltb shift 32 && not (bit_and byte 0x40 == 0)
    then bit_or result (sub32 0 (1 << shift))
    else result

unfoldable pub read_sleb128 : List ℕ → ℕ → Option (ℕ × ℕ)
unfolding leb_loop sign_extend
read_sleb128 mem p = do
  (result, shift, byte, count) ← leb_loop (drop p mem) 0 0 0
  some (sign_extend result shift byte, p + count)
