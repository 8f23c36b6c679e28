-- ===== src/Unpack/Encoding.antt =====
-- decompressIterated expands the encodings of lists of blocks that fit the page.
use mathlib.Core.List.{append_assoc}
use native.Mathlib.Nat.{mod-eq_of_lt, sub-zero}
use ine_debugger.Prelude.{ℕ, zero, suc, ◌+◌, ◌-◌, ◌*◌, ◌/◌, ◌%◌, ◌<◌, ◌≤◌, ◌≡◌, arith}
use ine_debugger.Prelude.{List, [], ◌∷◌, ◌++◌, length, length-append, All, replicate}
use ine_debugger.Prelude.{take, drop, take-append, drop-append, ltb, false}
use ine_debugger.Prelude.{◌∙◌}
use ine_debugger.Prelude.Word.{u32}
use ine_debugger.Unpack.{ok, load16, repeat, after}
use ine_debugger.Unpack.{copy_blocks, iterated_loop, decompress_iterated}
use ine_debugger.Prelude.{leb, true, some, refl}
use ine_debugger.Unpack.Blocks.{
  Block, IsBlock, block_bytes, encode, expand, load16_lem, length-repeat,
}
use ine_debugger.Unpack.Blocks.{product_small}

-- Copies that fit into both buffers write the bytes so many times.
pub copy_blocks-repeat :
    (n len room : ℕ) (src : List ℕ)
    → n * len ≤ room
    → len ≤ length src
    → copy_blocks n len room src ≡ some (repeat n (take len src))
unfolding copy_blocks repeat
copy_blocks-repeat zero len room src fits there = refl
copy_blocks-repeat (suc n) len room src fits there =
    let first : leb len room ≡ true = ground (arith, fits) in
    let source : leb len (length src) ≡ true = ground (arith, there) in
    rw (first, source, copy_blocks-repeat n len (room - len) src (omega (arith, fits)) there) refl

-- One round, at the numbers that its first four bytes hold.
iterated_round :
    (fuel dstlen n len b0 b1 b2 b3 : ℕ) (rest : List ℕ)
    → load16 b0 b1 ≡ n
    → load16 b2 b3 ≡ len
    → n < 0x10000
    → len < 0x10000
    → n * len ≤ dstlen
    → len ≤ length rest
    → iterated_loop (suc fuel) dstlen (b0 ∷ b1 ∷ b2 ∷ b3 ∷ rest)
      ≡ after (repeat n (take len rest)) (iterated_loop fuel (dstlen - n * len) (drop len rest))
unfolding iterated_loop
iterated_round fuel dstlen n len b0 b1 b2 b3 rest p q hn hl fits there =
    let small : u32 (n * len) ≡ n * len = mod-eq_of_lt (product_small n len hn hl) in
    let room : ltb dstlen (n * len) ≡ false = ground arith in
    let source : ltb (length rest) len ≡ false = ground arith in
    let written = copy_blocks-repeat n len dstlen rest fits there in
    rw (p, q, small, room, source, written) (rw (p, q) refl)

-- What is left is a block's bytes: the round writes the block's expansion.
block_round :
    (fuel dstlen : ℕ) (b : Block) (rest : List ℕ)
    → IsBlock b
    → b.iterations * length b.chunk ≤ dstlen
    → iterated_loop (suc fuel) dstlen (block_bytes b rest)
      ≡ after
          (repeat b.iterations b.chunk)
          (iterated_loop fuel (dstlen - b.iterations * length b.chunk) rest)
block_round fuel dstlen b rest (hn, hl) fits =
    let n = b.iterations in
    let len = length b.chunk in
    iterated_round fuel dstlen n len (n % 256) (n / 256) (len % 256) (len / 256) (b.chunk ++ rest)
      (omega (arith, load16_lem (n % 256) (n / 256)))
      (omega (arith, load16_lem (len % 256) (len / 256))) hn hl fits
      (omega (arith, length-append b.chunk rest))
    ∙ rw (take-append b.chunk rest, drop-append b.chunk rest)

pub iterated_loop-encode :
    (blocks : List Block) (fuel dstlen : ℕ)
    → All IsBlock blocks
    → length (encode blocks) ≤ fuel
    → length (expand blocks) ≤ dstlen
    → iterated_loop fuel dstlen (encode blocks)
      ≡ ok (expand blocks ++ replicate (dstlen - length (expand blocks)) 0)
iterated_loop-encode [] zero dstlen h hf hd = unfold iterated_loop in rw sub-zero
iterated_loop-encode [] (suc fuel) dstlen h hf hd = unfold iterated_loop in rw sub-zero
iterated_loop-encode (b ∷ bs) zero dstlen h hf hd = absurd (omega arith)
iterated_loop-encode (b ∷ bs) (suc fuel) dstlen (hb, hbs) hf hd =
    let total : length (expand (b ∷ bs)) ≡ b.iterations * length b.chunk + length (expand bs) =
      omega (
        arith,
        length-append (repeat b.iterations b.chunk) (expand bs),
        length-repeat b.iterations b.chunk,
      ) in
    let left : dstlen - b.iterations * length b.chunk - length (expand bs)
        ≡ dstlen - length (expand (b ∷ bs)) =
      omega arith in
    block_round fuel dstlen b (encode bs) hb (omega arith)
    ∙ rw
        (iterated_loop-encode bs fuel (dstlen - b.iterations * length b.chunk) hbs
          (omega (arith, length-append b.chunk (encode bs))) (omega arith))
        (rw (
          left,
          append_assoc (repeat b.iterations b.chunk) (expand bs)
              (replicate (dstlen - length (expand (b ∷ bs))) 0),
        ))

-- The encoding of blocks that fit the page is expanded, and the rest of the page is zero.
pub decompress_iterated-encode :
    (blocks : List Block) (dstlen : ℕ)
    → All IsBlock blocks
    → length (expand blocks) ≤ dstlen
    → decompress_iterated dstlen (encode blocks)
      ≡ ok (expand blocks ++ replicate (dstlen - length (expand blocks)) 0)
unfolding decompress_iterated
decompress_iterated-encode blocks dstlen h fits =
    iterated_loop-encode blocks (length (encode blocks)) dstlen h (omega arith) fits
