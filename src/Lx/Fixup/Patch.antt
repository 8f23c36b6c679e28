-- ===== src/Lx/Fixup/Patch.antt =====
-- lx_loader.c, doFixup: which memory a fixup changes, and what stands there afterwards.
use ine_debugger.Prelude.{ℕ, ◌+◌, ◌%◌, ◌^◌, ◌<◌, ◌≡◌, refl, sym, ap, arith, Bool, true, false}
use ine_debugger.Prelude.{List, length, if◌then◌else◌, ◌==◌}
use ine_debugger.Prelude.Word.{add32, sub32, IsU32}
use ine_debugger.Prelude.Memory.{ok, halt, ◌>>=◌, ok_of_bind, store8, store16, store32, load32}
use ine_debugger.Prelude.Memory.Writes.{
  Patched, then-Patched, store8-Patched, store16-Patched, store32-Patched, stored32,
}
use ine_debugger.Lx.Fixup.{do_fixup, fix_source, sext16}

pointer-Patched :
    (mem mem' : List ℕ) (at finalval finalval2 : ℕ)
    → at + 4 < 2 ^ 32
    → (store32 mem at finalval >>= λ mid. store16 mid (add32 at 4) finalval2) ≡ ok mem'
    → Patched 6 at mem mem'
pointer-Patched mem mem' at finalval finalval2 h e =
    let (mid, e0, e1) = ok_of_bind (store32 mem at finalval) _ mem' e in
    let same : add32 at 4 ≡ at + 4 = omega (arith, h) in
    then-Patched 4 2 at mem mid mem' (store32-Patched mem mid at finalval e0)
      (store16-Patched mid mem' (at + 4) finalval2 (rw (sym same) e1))

do_fixup_branches :
    (mem mem' : List ℕ) (at finalval finalval2 size : ℕ) (a b c d : Bool)
    → at + 4 < 2 ^ 32
    → (a ≡ true → size ≡ 1)
    → (b ≡ true → size ≡ 2)
    → (c ≡ true → size ≡ 4)
    → (d ≡ true → size ≡ 6)
    → (if a
        then store8 mem at finalval
        else (if b
            then store16 mem at finalval
            else (if c
                then store32 mem at finalval
                else (if d
                    then (store32 mem at finalval >>= λ mid. store16 mid (add32 at 4) finalval2)
                    else halt))))
      ≡ ok mem'
    → Patched size at mem mem'
do_fixup_branches mem mem' at finalval finalval2 size true b c d h ha hb hc hd e =
    rw (ha refl) (store8-Patched mem mem' at finalval e)
do_fixup_branches mem mem' at finalval finalval2 size false true c d h ha hb hc hd e =
    rw (hb refl) (store16-Patched mem mem' at finalval e)
do_fixup_branches mem mem' at finalval finalval2 size false false true d h ha hb hc hd e =
    rw (hc refl) (store32-Patched mem mem' at finalval e)
do_fixup_branches mem mem' at finalval finalval2 size false false false true h ha hb hc hd e =
    rw (hd refl) (pointer-Patched mem mem' at finalval finalval2 h e)
do_fixup_branches mem mem' at finalval finalval2 size false false false false h ha hb hc hd e = cc

-- A fixup that is done leaves memory as long as it was, and changes none but the bytes of its
-- size from its address on, where these do not wrap around.
pub do_fixup-Patched :
    (mem mem' : List ℕ) (at finalval finalval2 size : ℕ)
    → at + 4 < 2 ^ 32
    → do_fixup mem at finalval finalval2 size ≡ ok mem'
    → Patched size at mem mem'
unfolding do_fixup
do_fixup-Patched mem mem' at finalval finalval2 size h e =
    do_fixup_branches mem mem' at finalval finalval2 size (size == 1) (size == 2) (size == 4)
      (size == 6) h (ground arith) (ground arith) (ground arith) (ground arith) e

back_to :
    (at finalval : ℕ)
    → at + 4 < 2 ^ 32
    → IsU32 finalval
    → add32 (sub32 finalval (add32 at 4) % 2 ^ 32) (at + 4) ≡ finalval
back_to at finalval h bound = omega (arith, h, bound)

-- A relative fixup of memory that is there succeeds, and what it leaves, added to the address
-- behind it, is the value that was asked for.
pub fix_source_relative :
    (page finalval finalval2 offset : ℕ) (mem : List ℕ)
    → let at = add32 page (sext16 offset) in
      at + 4 < 2 ^ 32
      → at + 3 < length mem
      → IsU32 finalval
      → (fix_source page 8 finalval finalval2 offset mem >>= λ mem'.
          load32 mem' at >>= λ d. ok (add32 d (at + 4)))
        ≡ ok finalval
unfolding fix_source do_fixup
fix_source_relative page finalval finalval2 offset mem h inside bound =
    let at = add32 page (sext16 offset) in
    let (mem', e, l) = stored32 mem at (sub32 finalval (add32 at 4)) inside in
    rw (e, l) (ap ok (back_to at finalval h bound))
