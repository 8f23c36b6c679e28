-- ===== src/Prelude/Memory/Reads.antt =====
-- Loads from memory that shows given bytes.
use native.Mathlib.Omega.{arith}
use Prim.Native.Nat.{ℕ, ◌+◌, ◌^◌, ◌<◌}
use mathlib.Core.Path.{◌≡◌}
use mathlib.Core.List.{List, ◌∷◌, ◌++◌}
use ine_debugger.Prelude.Lists.{drop, drop_cons}
use ine_debugger.Prelude.Memory.{ok, load8, load16, load32, le16, le32}

pub load8_at :
    (mem : List ℕ) (p b : ℕ) (rest : List ℕ)
    → drop p mem ≡ b ∷ rest
    → (load8 mem p ≡ ok b) × (drop (p + 1) mem ≡ rest)
unfolding load8
load8_at mem p b rest e = let (e0, d) = drop_cons mem p b rest e in (ground (arith, e0), d)

pub load16_at :
    (mem : List ℕ) (p v : ℕ) (rest : List ℕ)
    → drop p mem ≡ le16 v ++ rest
    → (load16 mem p ≡ ok v) × (drop (p + 2) mem ≡ rest)
unfolding load16
load16_at mem p v rest e =
    let (e0, d0) = load8_at mem p _ _ e in
    let (e1, d1) = load8_at mem (p + 1) _ _ d0 in
    let two : p + 2 ≡ p + 1 + 1 = omega arith in (ground (arith, e0, e1), rw two d1)

pub load32_at :
    (mem : List ℕ) (p v : ℕ) (rest : List ℕ)
    → v < 2 ^ 32
    → drop p mem ≡ le32 v ++ rest
    → (load32 mem p ≡ ok v) × (drop (p + 4) mem ≡ rest)
unfolding load32 load16
load32_at mem p v rest h e =
    let (e0, d0) = load8_at mem p _ _ e in
    let (e1, d1) = load8_at mem (p + 1) _ _ d0 in
    let (e2, d2) = load8_at mem (p + 1 + 1) _ _ d1 in
    let (e3, d3) = load8_at mem (p + 1 + 1 + 1) _ _ d2 in
    let two : p + 2 ≡ p + 1 + 1 = omega arith in
    let four : p + 4 ≡ p + 1 + 1 + 1 + 1 = omega arith in
    (rw two (ground (arith, e0, e1, e2, e3)), rw four d3)
