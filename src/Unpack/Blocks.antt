-- ===== src/Unpack/Blocks.antt =====
-- The iterated format as data: blocks of a repeat count and a chunk, and their bytes.
use ine_debugger.Prelude.{ℕ, zero, suc, ◌+◌, ◌*◌, ◌/◌, ◌%◌, ◌^◌, ◌<◌, ◌≡◌, arith}
use ine_debugger.Prelude.{List, [], ◌∷◌, ◌++◌, length, length-append}
use ine_debugger.Prelude.Bits.{bit_or_shifted}
use ine_debugger.Unpack.{load16, repeat}

pub record Block : Type 0 where
  pub iterations : ℕ
  pub chunk : List ℕ

-- Both numbers fit 16 bits.
abbrev pub IsBlock : Block → Type 0
IsBlock b = (b.iterations < 0x10000) × (length b.chunk < 0x10000)

abbrev pub block_bytes : Block → List ℕ → List ℕ
block_bytes b rest =
    (b.iterations % 256)
    ∷ (b.iterations / 256)
    ∷ (length b.chunk % 256)
    ∷ (length b.chunk / 256)
    ∷ (b.chunk ++ rest)

abbrev pub encode : List Block → List ℕ
encode [] = []
encode (b ∷ bs) = block_bytes b (encode bs)

abbrev pub expand : List Block → List ℕ
expand [] = []
expand (b ∷ bs) = repeat b.iterations b.chunk ++ expand bs

pub load16_lem : (lo hi : ℕ) → lo < 256 → load16 lo hi ≡ lo + hi * 256
unfolding load16
load16_lem lo hi h = bit_or_shifted 8 lo hi h

pub length-repeat : (n : ℕ) (chunk : List ℕ) → length (repeat n chunk) ≡ n * length chunk
unfolding repeat
length-repeat zero chunk = omega arith
length-repeat (suc n) chunk =
    omega (arith, length-append chunk (repeat n chunk), length-repeat n chunk)

pub product_small : (a b : ℕ) → a < 0x10000 → b < 0x10000 → a * b < 2 ^ 32
product_small a b h k = grind arith
