-- ===== src/Unpack/Iterated.antt =====
-- decompressIterated ends, and expands nothing but encodings of lists of blocks, padded with zeros.
use mathlib.Core.List.{append_assoc}
use native.Mathlib.Nat.{mod-eq_of_lt, sub-zero}
use ine_debugger.Prelude.{ℕ, zero, suc, ◌+◌, ◌-◌, ◌*◌, ◌/◌, ◌%◌, ◌<◌, ◌≤◌, ◌≡◌, ◌≢◌, refl, arith}
use ine_debugger.Prelude.{List, [], ◌∷◌, ◌++◌, length, length-append, All, replicate}
use ine_debugger.Prelude.{take, drop, take-append-drop, length-take, ltb}
use ine_debugger.Prelude.{ltb→le, length-drop, Bool-cases, inl, inr, ap, sym, ◌∙◌}
use ine_debugger.Prelude.Word.{IsByte, u32}
use ine_debugger.Unpack.{Unpacked, ok, failed, fault, stuck, load16, repeat, after}
use ine_debugger.Unpack.{iterated_loop, decompress_iterated}
use ine_debugger.Unpack.Encoding.{copy_blocks-repeat}
use ine_debugger.Unpack.Pack2.{Returns}
use ine_debugger.Prelude.{length-replicate}
use ine_debugger.Unpack.Blocks.{Block, IsBlock, encode, expand, load16_lem, length-repeat}
use ine_debugger.Unpack.Blocks.{product_small}

-- What a successful run has read and written.
abbrev pub IsExpansion : ℕ → List ℕ → List ℕ → Type 0
IsExpansion dstlen src out =
    (blocks : List Block) × All IsBlock blocks
    × (src ≡ encode blocks)
    × (length (expand blocks) ≤ dstlen)
    × (out ≡ expand blocks ++ replicate (dstlen - length (expand blocks)) 0)

empty_IsExpansion :
    (dstlen : ℕ) (out : List ℕ) → replicate dstlen 0 ≡ out → IsExpansion dstlen [] out
empty_IsExpansion dstlen out e = ([], tt, refl, omega arith, sym e ∙ rw sub-zero)

drop-IsByte : (n : ℕ) (xs : List ℕ) → All IsByte xs → All IsByte (drop n xs)
drop-IsByte zero xs h = h
drop-IsByte (suc n) [] h = tt
drop-IsByte (suc n) (x ∷ xs) h = drop-IsByte n xs h.1

split_low : (a b : ℕ) → a < 256 → (a + b * 256) % 256 ≡ a
split_low a b h = omega arith

split_high : (a b : ℕ) → a < 256 → (a + b * 256) / 256 ≡ b
split_high a b h = omega arith

-- A block in front of what the rest of the run expanded.
extend_IsExpansion :
    (dstlen a b c d : ℕ) (rest tail out : List ℕ)
    → All IsByte (a ∷ b ∷ c ∷ d ∷ rest)
    → (a + b * 256) * (c + d * 256) ≤ dstlen
    → c + d * 256 ≤ length rest
    → IsExpansion (dstlen - (a + b * 256) * (c + d * 256)) (drop (c + d * 256) rest) tail
    → out ≡ repeat (a + b * 256) (take (c + d * 256) rest) ++ tail
    → IsExpansion dstlen (a ∷ b ∷ c ∷ d ∷ rest) out
extend_IsExpansion dstlen a b c d rest tail out h fits there (blocks, hbs, hsrc, hfit, htail) e =
    let n = a + b * 256 in
    let len = c + d * 256 in
    let block : Block = record { iterations = n; chunk = take len rest } in
    let size : length (take len rest) ≡ len = omega (arith, length-take len rest) in
    let total : length (expand (block ∷ blocks)) ≡ n * len + length (expand blocks) =
      length-append (repeat n (take len rest)) (expand blocks)
      ∙ rw (length-repeat n (take len rest), size) in
    let left : dstlen - n * len - length (expand blocks)
        ≡ dstlen - (n * len + length (expand blocks)) =
      omega arith in
    let whole : rest ≡ take len rest ++ encode blocks =
      rw (← hsrc) (sym (take-append-drop len rest)) in
    (
      block ∷ blocks,
      ((omega (arith, h.0, h.1.0), omega (arith, size, h.1.1.0, h.1.1.1.0)), hbs),
      cc (
        split_low a b h.0,
        split_high a b h.0,
        ap (λ (t : ℕ). t % 256) size ∙ split_low c d h.1.1.0,
        ap (λ (t : ℕ). t / 256) size ∙ split_high c d h.1.1.0,
        whole,
      ),
      omega (arith, total),
      e
          ∙ rw (htail) (
              rw (total, left)
                (sym (
                  append_assoc (repeat n (take len rest)) (expand blocks)
                    (replicate (dstlen - (n * len + length (expand blocks))) 0)))),
    )

after_ok :
    (n : ℕ) (chunk : List ℕ) (r : Unpacked) (out : List ℕ) {dstlen len size : ℕ}
    → n * len ≤ dstlen
    → len ≤ size
    → after (repeat n chunk) r ≡ ok out
    → (n * len ≤ dstlen)
      × (len ≤ size)
      × (tail : List ℕ) × (r ≡ ok tail)
      × (out ≡ repeat n chunk ++ tail)
after_ok n chunk (ok tail) out p q e = (p, q, tail, refl, cc)
after_ok n chunk failed out p q e = cc
after_ok n chunk fault out p q e = cc
after_ok n chunk stuck out p q e = cc

-- A round that succeeds has checked both lengths.
round_ok :
    (fuel dstlen n len b0 b1 b2 b3 : ℕ) (rest out : List ℕ)
    → load16 b0 b1 ≡ n
    → load16 b2 b3 ≡ len
    → n < 0x10000
    → len < 0x10000
    → iterated_loop (suc fuel) dstlen (b0 ∷ b1 ∷ b2 ∷ b3 ∷ rest) ≡ ok out
    → (n * len ≤ dstlen)
      × (len ≤ length rest)
      × (tail : List ℕ) × (iterated_loop fuel (dstlen - n * len) (drop len rest) ≡ ok tail)
      × (out ≡ repeat n (take len rest) ++ tail)
unfolding iterated_loop
round_ok fuel dstlen n len b0 b1 b2 b3 rest out p q hn hl e =
    let small : u32 (n * len) ≡ n * len = mod-eq_of_lt (product_small n len hn hl) in
    elim (Bool-cases (ltb dstlen (n * len))) [
      | inl over ↦ cc (rw (p, q, small, over) at e)
      | inr room ↦ elim (Bool-cases (ltb (length rest) len)) [
        | inl over ↦ cc (rw (p, q, small, room, over) at e)
        | inr source ↦
            let fits = ltb→le dstlen (n * len) room in
            let there = ltb→le (length rest) len source in
            let written = copy_blocks-repeat n len dstlen rest fits there in
            after_ok n (take len rest) (iterated_loop fuel (dstlen - n * len) (drop len rest)) out
              fits there (rw (p, q) at (rw (p, q, small, room, source, written) at e))
      ]
    ]

iterated_loop-IsExpansion :
    (fuel dstlen : ℕ) (src out : List ℕ)
    → All IsByte src
    → iterated_loop fuel dstlen src ≡ ok out
    → IsExpansion dstlen src out
iterated_loop-IsExpansion zero dstlen [] out h e =
    empty_IsExpansion dstlen out (unfold iterated_loop in cc e)
iterated_loop-IsExpansion (suc fuel) dstlen [] out h e =
    empty_IsExpansion dstlen out (unfold iterated_loop in cc e)
iterated_loop-IsExpansion zero dstlen (b ∷ bs) out h e = unfold iterated_loop in cc e
iterated_loop-IsExpansion (suc fuel) dstlen (a ∷ []) out h e = unfold iterated_loop in cc e
iterated_loop-IsExpansion (suc fuel) dstlen (a ∷ b ∷ []) out h e = unfold iterated_loop in cc e
iterated_loop-IsExpansion (suc fuel) dstlen (a ∷ b ∷ c ∷ []) out h e = unfold iterated_loop in cc e
iterated_loop-IsExpansion (suc fuel) dstlen (a ∷ b ∷ c ∷ d ∷ rest) out h e =
    let n = a + b * 256 in
    let len = c + d * 256 in
    let (fits, there, tail, e', o) =
      round_ok fuel dstlen n len a b c d rest out (load16_lem a b h.0) (load16_lem c d h.1.1.0)
        (omega (arith, h.0, h.1.0)) (omega (arith, h.1.1.0, h.1.1.1.0)) e in
    let ih =
      iterated_loop-IsExpansion fuel (dstlen - n * len) (drop len rest) tail
        (drop-IsByte len rest h.1.1.1.1) e' in
    extend_IsExpansion dstlen a b c d rest tail out h fits there ih o

-- A run that succeeds has read the encoding of some list of blocks, and has written their
-- expansion and zeros up to the page's end. The source is a list of bytes.
pub decompress_iterated-IsExpansion :
    (dstlen : ℕ) (src out : List ℕ)
    → All IsByte src
    → decompress_iterated dstlen src ≡ ok out
    → IsExpansion dstlen src out
unfolding decompress_iterated
decompress_iterated-IsExpansion dstlen src out h e =
    iterated_loop-IsExpansion (length src) dstlen src out h e

after-ne :
    (front : List ℕ) (r : Unpacked)
    → r ≢ stuck
    → r ≢ fault
    → (after front r ≢ stuck) × (after front r ≢ fault)
after-ne front (ok out) p q = (λ e. cc, λ e. cc)
after-ne front failed p q = (λ e. cc, λ e. cc)
after-ne front fault p q = absurd (q refl)
after-ne front stuck p q = absurd (p refl)

iterated_loop-returns :
    (fuel dstlen : ℕ) (src : List ℕ)
    → All IsByte src
    → length src ≤ fuel
    → (iterated_loop fuel dstlen src ≢ stuck) × (iterated_loop fuel dstlen src ≢ fault)
unfolding iterated_loop
iterated_loop-returns zero dstlen [] bytes h = (λ e. cc, λ e. cc)
iterated_loop-returns (suc fuel) dstlen [] bytes h = (λ e. cc, λ e. cc)
iterated_loop-returns zero dstlen (b ∷ bs) bytes h = absurd (omega (arith, h))
iterated_loop-returns (suc fuel) dstlen (a ∷ []) bytes h = (λ e. cc, λ e. cc)
iterated_loop-returns (suc fuel) dstlen (a ∷ b ∷ []) bytes h = (λ e. cc, λ e. cc)
iterated_loop-returns (suc fuel) dstlen (a ∷ b ∷ c ∷ []) bytes h = (λ e. cc, λ e. cc)
iterated_loop-returns (suc fuel) dstlen (a ∷ b ∷ c ∷ d ∷ rest) bytes h =
    let n = a + b * 256 in
    let len = c + d * 256 in
    let iterations : load16 a b ≡ n = load16_lem a b bytes.0 in
    let size : load16 c d ≡ len = load16_lem c d bytes.1.1.0 in
    let small : u32 (n * len) ≡ n * len = mod-eq_of_lt (
      product_small n len (omega (arith, bytes.0, bytes.1.0))
        (omega (arith, bytes.1.1.0, bytes.1.1.1.0))) in
    let (p, q) =
      iterated_loop-returns fuel (dstlen - n * len) (drop len rest)
        (drop-IsByte len rest bytes.1.1.1.1) (omega (arith, h, length-drop len rest)) in
    rw (iterations, size, small)
      (elim (Bool-cases (ltb dstlen (n * len))) [
        | inl over ↦ rw over (λ e. cc, λ e. cc)
        | inr room ↦ elim (Bool-cases (ltb (length rest) len)) [
          | inl over ↦ rw (room, over) (λ e. cc, λ e. cc)
          | inr source ↦
              let written =
                copy_blocks-repeat n len dstlen rest (ltb→le dstlen (n * len) room)
                  (ltb→le (length rest) len source) in
              rw (room, source, written)
                (rw (iterations, size)
                  (after-ne (repeat n (take len rest))
                    (iterated_loop fuel (dstlen - n * len) (drop len rest)) p q))
        ]
      ])

pub iterated-Returns :
    (size : ℕ) (src : List ℕ) (u : Unpacked)
    → All IsByte src
    → decompress_iterated size src ≡ u
    → Returns size u
unfolding decompress_iterated
iterated-Returns size src (ok out) b e =
    let (blocks, ok_blocks, encoded, fits, made) =
      decompress_iterated-IsExpansion size src out b e in
    ap length made
    ∙ omega (
      arith,
      length-append (expand blocks) (replicate (size - length (expand blocks)) 0),
      length-replicate {A = ℕ} (size - length (expand blocks)) 0,
    )
iterated-Returns size src failed b e = tt
iterated-Returns size src fault b e =
    absurd ((iterated_loop-returns (length src) size src b (omega arith)).1 e)
iterated-Returns size src stuck b e =
    absurd ((iterated_loop-returns (length src) size src b (omega arith)).0 e)

-- On every list of bytes the routine ends, and no copy leaves the source or the page: it returns 1
-- with a page of exactly the size that was asked for, or 0.
pub decompress_iterated-Returns :
    (dstlen : ℕ) (src : List ℕ) → All IsByte src → Returns dstlen (decompress_iterated dstlen src)
decompress_iterated-Returns dstlen src b =
    iterated-Returns dstlen src (decompress_iterated dstlen src) b refl
