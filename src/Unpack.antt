-- ===== src/Unpack.antt =====
-- lx_loader.c: the two page formats, decompressIterated and decompressExePack2. A source buffer is
-- the list of its bytes, a destination buffer is a list that is written in place.
pub mod Blocks
pub mod Encoding
pub mod Iterated
pub mod Memory
pub mod Passes
pub mod Pack2
mod Runs
use ine_debugger.Prelude.{ℕ, zero, suc, ◌+◌, ◌-◌, ◌*◌, ◌<◌, ◌^◌, ◌%◌, ◌/◌, bit_or, bit_and}
use ine_debugger.Prelude.{Bool, true, false, ◌&&◌, Option, none, some, List, [], ◌∷◌, ◌++◌}
use ine_debugger.Prelude.{
  ltb, leb, ◌==◌, if◌then◌else◌, length, get_elem?, set, take, drop, replicate,
}
use ine_debugger.Prelude.Word.{u32, ◌<<◌, ◌>>◌}

-- How a routine ends: with 1 and a buffer, with 0, by an access outside of a buffer, or not
-- within its fuel.
pub data Unpacked : Type 0 where
  ok : List ℕ → Unpacked
  failed : Unpacked
  fault : Unpacked
  stuck : Unpacked

-- A 16-bit load from two bytes.
unfoldable pub load16 : ℕ → ℕ → ℕ
load16 lo hi = bit_or lo (hi << 8)

-- `len` bytes, `iterations` times.
pub repeat : ℕ → List ℕ → List ℕ
repeat zero chunk = []
repeat (suc n) chunk = chunk ++ repeat n chunk

abbrev pub after : List ℕ → Unpacked → Unpacked
after front (ok out) = ok (front ++ out)
after front failed = failed
after front fault = fault
after front stuck = stuck

-- The inner loop: so many times a memcpy of `len` bytes, into `room` bytes that are left to write.
-- None where a copy would leave either buffer.
unfoldable pub copy_blocks : ℕ → ℕ → ℕ → List ℕ → Option (List ℕ)
copy_blocks zero len room src = some []
copy_blocks (suc n) len room src =
    let rest = copy_blocks n len (room - len) src in
    if leb len room && leb len (length src)
    then (elim rest [ none ↦ none | some out ↦ some (take len src ++ out) ])
    else none

-- The `while (srclen)` loop: `src` is what is left of the source, `dstlen` what is left to write.
-- The result is what is written from here on.
unfoldable pub iterated_loop : ℕ → ℕ → List ℕ → Unpacked
unfolding copy_blocks load16
iterated_loop fuel dstlen [] = ok (replicate dstlen 0)
iterated_loop zero dstlen (b ∷ bs) = stuck
iterated_loop (suc fuel) dstlen (b0 ∷ b1 ∷ b2 ∷ b3 ∷ rest) =
    let iterations = load16 b0 b1 in
    let len = load16 b2 b3 in
    let more = iterated_loop fuel (dstlen - iterations * len) (drop len rest) in
    if ltb dstlen (u32 (iterations * len))
    then failed
    else (if ltb (length rest) len then failed else (elim (copy_blocks iterations len dstlen rest) [
      | none ↦ fault
      | some written ↦ after written more
    ]))
iterated_loop (suc fuel) dstlen (b ∷ bs) = failed

-- A round takes four bytes at least.
pub decompress_iterated : ℕ → List ℕ → Unpacked
decompress_iterated dstlen src = iterated_loop (length src) dstlen src

-- `*dst = *src` for single bytes of one buffer, front to back: linearmove.
pub linear_move : List ℕ → ℕ → ℕ → ℕ → Option (List ℕ)
linear_move buf d s zero = some buf
linear_move buf d s (suc len) = elim (get_elem? buf s) [
  | none ↦ none
  | some v ↦ if ltb d (length buf) then linear_move (set buf d v) (d + 1) (s + 1) len else none
]

-- memcpy out of the source, and memset.
pub copy_in : List ℕ → ℕ → List ℕ → ℕ → ℕ → Option (List ℕ)
copy_in buf d src s zero = some buf
copy_in buf d src s (suc len) = elim (get_elem? src s) [
  | none ↦ none
  | some v ↦ if ltb d (length buf) then copy_in (set buf d v) (d + 1) src (s + 1) len else none
]

pub fill : List ℕ → ℕ → ℕ → ℕ → Option (List ℕ)
fill buf d v zero = some buf
fill buf d v (suc len) = if ltb d (length buf) then fill (set buf d v) (d + 1) v len else none

-- sOf, dOf and the destination.
pub record Cursor : Type 0 where
  pub src_at : ℕ
  pub dst_at : ℕ
  pub dst : List ℕ

-- One pass of the switch: on, `return 0`, the `break` at the end of the source, or a bad access.
pub data Pass : Type 0 where
  next : Cursor → Pass
  reject : Pass
  finish : Pass
  broken : Pass

abbrev pub moved : ℕ → ℕ → Option (List ℕ) → Pass
moved s d none = broken
moved s d (some buf) = next (record { src_at = s; dst_at = d; dst = buf })

-- Literal bytes, then a copy from `back` bytes behind the output's end (cases 1 and 3).
unfoldable pub copy_pair : List ℕ → Cursor → ℕ → ℕ → ℕ → ℕ → Pass
unfolding linear_move copy_in
copy_pair src c s literals count back =
    if leb (s + literals) (length src)
      && leb (c.dst_at + (literals + count)) (length c.dst)
      && leb back (c.dst_at + literals)
    then (elim (copy_in c.dst c.dst_at src s literals) [
      | none ↦ broken
      | some buf ↦
          moved (s + literals) (c.dst_at + literals + count)
            (linear_move buf (c.dst_at + literals) (c.dst_at + literals - back) count)
    ])
    else reject

-- The cases of the switch, given the bytes that they load from `src`.
unfoldable pub pass_zero : List ℕ → Cursor → ℕ → Option ℕ → Option ℕ → Pass
unfolding copy_in fill
pass_zero src c b1 second third =
    let s = c.src_at in
    if b1 == 0
    then (if leb (s + 2) (length src)
        then (elim second [
          | none ↦ broken
          | some n ↦
              if n == 0
              then next (record { src_at = s + 2; dst_at = c.dst_at; dst = c.dst })
              else (if leb (s + 3) (length src) && leb (c.dst_at + n) (length c.dst)
                  then (elim third [
                    | none ↦ broken
                    | some v ↦ moved (s + 3) (c.dst_at + n) (fill c.dst c.dst_at v n)
                  ])
                  else reject)
        ])
        else reject)
    else (if leb (s + ((b1 >> 2) + 1)) (length src) && leb (c.dst_at + (b1 >> 2)) (length c.dst)
        then moved (s + ((b1 >> 2) + 1)) (c.dst_at + (b1 >> 2))
            (copy_in c.dst c.dst_at src (s + 1) (b1 >> 2))
        else reject)

unfoldable pub pass_one : List ℕ → Cursor → ℕ → Option ℕ → Pass
unfolding copy_pair load16
pass_one src c b1 none = if leb (c.src_at + 2) (length src) then broken else reject
pass_one src c b1 (some second) =
    if leb (c.src_at + 2) (length src)
    then copy_pair src c (c.src_at + 2) (bit_and (b1 >> 2) 3) (bit_and (b1 >> 4) 7 + 3)
        (load16 b1 second >> 7)
    else reject

unfoldable pub pass_two : List ℕ → Cursor → ℕ → Option ℕ → Pass
unfolding linear_move load16
pass_two src c b1 none = if leb (c.src_at + 2) (length src) then broken else reject
pass_two src c b1 (some second) =
    let back = load16 b1 second >> 4 in
    let count = bit_and (b1 >> 2) 3 + 3 in
    if leb (c.src_at + 2) (length src)
    then (if leb (c.dst_at + count) (length c.dst) && leb back c.dst_at
        then moved (c.src_at + 2) (c.dst_at + count)
            (linear_move c.dst c.dst_at (c.dst_at - back) count)
        else reject)
    else reject

unfoldable pub pass_three : List ℕ → Cursor → ℕ → Option ℕ → Option ℕ → Pass
unfolding copy_pair load16
pass_three src c b1 (some second) (some third) =
    if leb (c.src_at + 3) (length src)
    then copy_pair src c (c.src_at + 3) (bit_and (b1 >> 2) 0x0F)
        (bit_and (load16 b1 second >> 6) 0x3F) (load16 second third >> 4)
    else reject
pass_three src c b1 second third = if leb (c.src_at + 3) (length src) then broken else reject

unfoldable pub pass : List ℕ → Cursor → Pass
unfolding pass_zero pass_one pass_two pass_three
pass src c =
    if leb (c.src_at + 1) (length src)
    then (elim (get_elem? src c.src_at) [
      | none ↦ broken
      | some b1 ↦
          let second = get_elem? src (c.src_at + 1) in
          let third = get_elem? src (c.src_at + 2) in
          if bit_and b1 3 == 0
          then pass_zero src c b1 second third
          else (if bit_and b1 3 == 1
              then pass_one src c b1 second
              else (if bit_and b1 3 == 2
                  then pass_two src c b1 second
                  else pass_three src c b1 second third))
    ])
    else finish

-- `memset(dst + dOf, '\0', dstlen - dOf)`
unfoldable pub pad : Cursor → Unpacked
unfolding fill
pad c = elim (fill c.dst c.dst_at 0 (length c.dst - c.dst_at)) [ none ↦ fault | some buf ↦ ok buf ]

unfoldable pub pack2_loop : ℕ → List ℕ → Cursor → Unpacked
pack2_loop zero src c = stuck
pack2_loop (suc fuel) src c = elim (pass src c) [
  | next c' ↦ if ltb c'.dst_at (length c'.dst) then pack2_loop fuel src c' else pad c'
  | reject ↦ failed
  | finish ↦ pad c
  | broken ↦ fault
]

-- Each pass takes a byte of the source at least. `dst` is the page to fill.
pub decompress_exe_pack2 : List ℕ → List ℕ → Unpacked
unfolding pack2_loop pad pass
decompress_exe_pack2 dst src =
    pack2_loop (length src + 1) src (record { src_at = 0; dst_at = 0; dst = dst })
