-- ===== src/Unpack/Pack2.antt =====
-- decompressExePack2 ends, reads and writes inside of its buffers, and fills the whole page.
use ine_debugger.Prelude.{ℕ, zero, suc, ◌+◌, ◌-◌, ◌≤◌, ◌<◌, ◌≡◌, refl, arith}
use ine_debugger.Prelude.{List, length, ltb, Bool-cases, inl, inr}
use ine_debugger.Prelude.{sym}
use mathlib.Core.Path.{subst}
use ine_debugger.Unpack.{Unpacked, ok, failed, fault, stuck, Cursor, Pass}
use ine_debugger.Unpack.{pass, pad}
use ine_debugger.Unpack.{pack2_loop, decompress_exe_pack2}
use ine_debugger.Unpack.Memory.{fill-Written}
use ine_debugger.Unpack.Passes.{Sound, goes_on, rejects, finishes, pass-Sound}

-- The routine returns 1 with a page of the given size, or 0.
abbrev pub Returns : ℕ → Unpacked → Type 0
Returns size (ok out) = length out ≡ size
Returns size failed = Unit
Returns size fault = ⊥
Returns size stuck = ⊥

pad-Returns : (c : Cursor) → c.dst_at ≤ length c.dst → Returns (length c.dst) (pad c)
unfolding pad
pad-Returns c at =
    let (out, e, l) = fill-Written (length c.dst - c.dst_at) c.dst c.dst_at 0 (omega arith) in
    rw (e, Returns) l

Returns-at : (r r' : Unpacked) {n m : ℕ} → r ≡ r' → n ≡ m → Returns n r' → Returns m r
Returns-at r r' {n} {m} e l h = subst (λ k. Returns k r) l (subst (λ x. Returns n x) (sym e) h)

pack2_loop-Returns :
    (fuel : ℕ) (src : List ℕ) (c : Cursor)
    → length src - c.src_at < fuel
    → c.dst_at ≤ length c.dst
    → Returns (length c.dst) (pack2_loop fuel src c)
unfolding pack2_loop
pack2_loop-Returns zero src c h at = absurd (omega arith)
pack2_loop-Returns (suc fuel) src c h at =
    go (pass src c) refl (pass-Sound src c at) (λ c' p q. pack2_loop-Returns fuel src c' p q)
  where
    go :
        (p : Pass)
        → pass src c ≡ p
        → Sound src c p
        → ((c' : Cursor)
            → length src - c'.src_at < fuel
            → c'.dst_at ≤ length c'.dst
            → Returns (length c'.dst) (pack2_loop fuel src c'))
        → Returns (length c.dst) (pack2_loop (suc fuel) src c)
    go p e (goes_on c' l d s t) ih = elim (Bool-cases (ltb c'.dst_at (length c'.dst))) [
      | inl more ↦
          Returns-at (pack2_loop (suc fuel) src c) (pack2_loop fuel src c')
            (ground (arith, e, more)) l (ih c' (omega arith) (omega (arith, l)))
      | inr full ↦
          Returns-at (pack2_loop (suc fuel) src c) (pad c') (ground (arith, e, full)) l
            (pad-Returns c' (omega (arith, l)))
    ]
    go p e rejects ih = Returns-at (pack2_loop (suc fuel) src c) failed (ground (arith, e)) refl tt
    go p e finishes ih =
        Returns-at (pack2_loop (suc fuel) src c) (pad c) (ground (arith, e)) refl (pad-Returns c at)

pub decompress_exe_pack2-Returns :
    (dst src : List ℕ) → Returns (length dst) (decompress_exe_pack2 dst src)
unfolding decompress_exe_pack2
decompress_exe_pack2-Returns dst src =
    pack2_loop-Returns (length src + 1) src (record { src_at = 0; dst_at = 0; dst = dst })
      (omega arith) (omega arith)
