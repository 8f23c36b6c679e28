-- ===== src/Prelude/Memory/Writes.antt =====
-- Stores: what they change, what they leave, and reading them back.
use native.Mathlib.Omega.{arith}
use Prim.Native.Nat.{ℕ, ◌+◌, ◌*◌, ◌/◌, ◌%◌, ◌^◌, ◌<◌, ◌≤◌}
use mathlib.Core.Path.{◌≡◌, sym, ap, ◌∙◌}
use mathlib.Core.Logic.{◌≢◌, ◌⊎◌, inl, inr}
use mathlib.Core.List.{List}
use ine_debugger.Prelude.Tests.{ltb, Bool-cases}
use ine_debugger.Prelude.Lists.{
  get_elem?, set, length, length-set, get_elem?-set_self, get_elem?-set_ne,
}
use ine_debugger.Prelude.Memory.{ok, ok_of_bind, load8, load16, load32, store8, store16, store32}

ne_of : {p : ℕ} (j : ℕ) → (j < p ⊎ p + 1 ≤ j) → p ≢ j
ne_of j h = omega (arith, h)

-- Of the same length, and the same outside of n bytes at an address.
pub record Patched (n at : ℕ) (mem mem' : List ℕ) : Type 0 where
  pub same_length : length mem' ≡ length mem
  pub outside : (j : ℕ) → (j < at ⊎ at + n ≤ j) → get_elem? mem' j ≡ get_elem? mem j

pub store8_in :
    (mem : List ℕ) (p v : ℕ) → p < length mem → store8 mem p v ≡ ok (set mem p (v % 256))
unfolding store8
store8_in mem p v h = ground (arith, h)

pub store8-Patched : (mem mem' : List ℕ) (p v : ℕ) → store8 mem p v ≡ ok mem' → Patched 1 p mem mem'
unfolding store8
store8-Patched mem mem' p v e = elim (Bool-cases (ltb p (length mem))) [
  | inl inside ↦
      let stored : set mem p (v % 256) ≡ mem' = ground (arith, e, inside) in
      rw (sym stored) (record {
        same_length = length-set mem p (v % 256);
        outside = λ j h. get_elem?-set_ne mem (v % 256) (ne_of j h);
      })
  | inr beyond ↦ absurd (ground (arith, e, beyond))
]

pub then-Patched :
    (n k at : ℕ) (mem mid mem' : List ℕ)
    → Patched n at mem mid
    → Patched k (at + n) mid mem'
    → Patched (n + k) at mem mem'
then-Patched n k at mem mid mem' a b = record {
  same_length = b.same_length ∙ a.same_length;
  outside = λ j h. b.outside j (omega (arith, h)) ∙ a.outside j (omega (arith, h));
}

pub store16-Patched :
    (mem mem' : List ℕ) (p v : ℕ) → store16 mem p v ≡ ok mem' → Patched 2 p mem mem'
unfolding store16
store16-Patched mem mem' p v e =
    let (mid, e0, e1) = ok_of_bind (store8 mem p v) _ mem' e in
    then-Patched 1 1 p mem mid mem' (store8-Patched mem mid p v e0)
      (store8-Patched mid mem' (p + 1) (v / 256) e1)

pub store32-Patched :
    (mem mem' : List ℕ) (p v : ℕ) → store32 mem p v ≡ ok mem' → Patched 4 p mem mem'
unfolding store32
store32-Patched mem mem' p v e =
    let (mid, e0, e1) = ok_of_bind (store16 mem p v) _ mem' e in
    then-Patched 2 2 p mem mid mem' (store16-Patched mem mid p v e0)
      (store16-Patched mid mem' (p + 2) (v / 65536) e1)

load_elsewhere :
    (n at : ℕ) (mem mem' : List ℕ)
    → Patched n at mem mem'
    → (j : ℕ) → (j < at ⊎ at + n ≤ j)
    → load8 mem' j ≡ load8 mem j
unfolding load8
load_elsewhere n at mem mem' h j o = let e = h.outside j o in ground (arith, e)

load16_elsewhere :
    (n at : ℕ) (mem mem' : List ℕ)
    → Patched n at mem mem'
    → (j : ℕ) → j + 1 < at
    → load16 mem' j ≡ load16 mem j
unfolding load16
load16_elsewhere n at mem mem' h j o =
    let e0 = load_elsewhere n at mem mem' h j (inl (omega (arith, o))) in
    let e1 = load_elsewhere n at mem mem' h (j + 1) (inl o) in rw (e0, e1)

-- Within memory a store succeeds, and what a load then answers is what was stored.
pub stored8 :
    (mem : List ℕ) (p v : ℕ)
    → p < length mem
    → (mem' : List ℕ) × (store8 mem p v ≡ ok mem') × (load8 mem' p ≡ ok (v % 256))
unfolding load8
stored8 mem p v h =
    let e = get_elem?-set_self mem p (v % 256) h in
    (set mem p (v % 256), store8_in mem p v h, ground (arith, e))

pub stored16 :
    (mem : List ℕ) (p v : ℕ)
    → p + 1 < length mem
    → (mem' : List ℕ) × (store16 mem p v ≡ ok mem') × (load16 mem' p ≡ ok (v % 65536))
unfolding store16 load16
stored16 mem p v h =
    let (m1, e0, l0) = stored8 mem p v (omega (arith, h)) in
    let same = (store8-Patched mem m1 p v e0).same_length in
    let (m2, e1, l1) = stored8 m1 (p + 1) (v / 256) (omega (arith, h, same)) in
    let kept =
      load_elsewhere 1 (p + 1) m1 m2 (store8-Patched m1 m2 (p + 1) (v / 256) e1) p
        (inl (omega arith)) in
    let joined : v % 256 + 256 * (v / 256 % 256) ≡ v % 65536 = omega arith in
    (m2, rw e0 e1, rw (kept, l0, l1) (ap ok joined))

pub stored32 :
    (mem : List ℕ) (p v : ℕ)
    → p + 3 < length mem
    → (mem' : List ℕ) × (store32 mem p v ≡ ok mem') × (load32 mem' p ≡ ok (v % 2 ^ 32))
unfolding store32 load32
stored32 mem p v h =
    let (m1, e0, l0) = stored16 mem p v (omega (arith, h)) in
    let same = (store16-Patched mem m1 p v e0).same_length in
    let (m2, e1, l1) = stored16 m1 (p + 2) (v / 65536) (omega (arith, h, same)) in
    let kept =
      load16_elsewhere 2 (p + 2) m1 m2 (store16-Patched m1 m2 (p + 2) (v / 65536) e1) p
        (omega arith) in
    let joined : v % 65536 + 65536 * (v / 65536 % 65536) ≡ v % 2 ^ 32 = omega arith in
    (m2, rw e0 e1, rw (kept, l0, l1) (ap ok joined))

pub weaker-Patched :
    (n k at : ℕ) (mem mem' : List ℕ) → n ≤ k → Patched n at mem mem' → Patched k at mem mem'
weaker-Patched n k at mem mem' h t = record {
  same_length = t.same_length;
  outside = λ j o. t.outside j (omega (arith, h, o));
}

-- A word that does not meet the bytes that changed.
pub load16_apart :
    (n at : ℕ) (mem mem' : List ℕ)
    → Patched n at mem mem'
    → (j : ℕ) → (j + 2 ≤ at ⊎ at + n ≤ j)
    → load16 mem' j ≡ load16 mem j
unfolding load16
load16_apart n at mem mem' h j o =
    let e0 = load_elsewhere n at mem mem' h j (omega (arith, o)) in
    let e1 = load_elsewhere n at mem mem' h (j + 1) (omega (arith, o)) in rw (e0, e1)
