-- ===== src/Unpack/Memory.antt =====
-- The three ways to write into a buffer stay inside of it.
use ine_debugger.Prelude.{ℕ, zero, suc, ◌+◌, ◌≤◌, ◌<◌, ◌≡◌, refl, arith, Option, some}
use ine_debugger.Prelude.{List, [], ◌∷◌, length, set, length-set, get_elem?}
use ine_debugger.Unpack.{linear_move, copy_in, fill}

-- A buffer of the same length, from a write that found no bad access.
abbrev pub Written : List ℕ → Option (List ℕ) → Type 0
Written buf r = (out : List ℕ) × (r ≡ some out) × (length out ≡ length buf)

pub get_elem?-lt {ℓ} :
    {A : Type ℓ} (xs : List A) (i : ℕ) → i < length xs → (x : A) × (get_elem? xs i ≡ some x)
get_elem?-lt [] i h = absurd (omega arith)
get_elem?-lt (x ∷ xs) zero h = (x, refl)
get_elem?-lt (x ∷ xs) (suc i) h = get_elem?-lt xs i (omega arith)

pub linear_move-Written :
    (len : ℕ) (buf : List ℕ) (d s : ℕ)
    → d + len ≤ length buf
    → s + len ≤ length buf
    → Written buf (linear_move buf d s len)
unfolding linear_move
linear_move-Written zero buf d s p q = (buf, refl, refl)
linear_move-Written (suc len) buf d s p q =
    let (v, e) = get_elem?-lt buf s (omega arith) in
    let same = length-set buf d v in
    let (out, e', l) =
      linear_move-Written len (set buf d v) (d + 1) (s + 1) (omega (arith, same))
        (omega (arith, same)) in
    (out, ground (arith, e, e'), omega (arith, l, same))

pub copy_in-Written :
    (len : ℕ) (buf : List ℕ) (d : ℕ) (src : List ℕ) (s : ℕ)
    → d + len ≤ length buf
    → s + len ≤ length src
    → Written buf (copy_in buf d src s len)
unfolding copy_in
copy_in-Written zero buf d src s p q = (buf, refl, refl)
copy_in-Written (suc len) buf d src s p q =
    let (v, e) = get_elem?-lt src s (omega arith) in
    let same = length-set buf d v in
    let (out, e', l) =
      copy_in-Written len (set buf d v) (d + 1) src (s + 1) (omega (arith, same)) (omega arith) in
    (out, ground (arith, e, e'), omega (arith, l, same))

pub fill-Written :
    (len : ℕ) (buf : List ℕ) (d v : ℕ) → d + len ≤ length buf → Written buf (fill buf d v len)
unfolding fill
fill-Written zero buf d v p = (buf, refl, refl)
fill-Written (suc len) buf d v p =
    let same = length-set buf d v in
    let (out, e, l) = fill-Written len (set buf d v) (d + 1) v (omega (arith, same)) in
    (out, ground (arith, e), omega (arith, l, same))
