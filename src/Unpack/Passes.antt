-- ===== src/Unpack/Passes.antt =====
-- The passes of decompressExePack2 read and write inside of the buffers.
use ine_debugger.Prelude.{ℕ, ◌+◌, ◌-◌, ◌≤◌, ◌<◌, ◌≡◌, refl, arith, Option, none, some}
use ine_debugger.Prelude.{List, length, get_elem?, leb, true, false, inl, inr}
use ine_debugger.Prelude.{if◌then◌else◌, ◌==◌, Bool, bit_and, ◌&&◌, Option-cases, ◌≢◌}
use ine_debugger.Prelude.Word.{◌>>◌}
use ine_debugger.Unpack.{Cursor, Pass, next, reject, finish, broken}
use ine_debugger.Unpack.{moved, load16, copy_pair, pass_zero, pass_one, pass_two, pass_three, pass}
use ine_debugger.Unpack.{linear_move, copy_in, fill}
use ine_debugger.Unpack.Memory.{
  Written, get_elem?-lt, linear_move-Written, copy_in-Written, fill-Written,
}

-- A pass goes on to a cursor inside of both buffers, past a byte of the source at least, and the
-- page keeps its size.
pub data Sound (src : List ℕ) (c : Cursor) : Pass → Type 0 where
  goes_on :
      (c' : Cursor)
      → length c'.dst ≡ length c.dst
      → c'.dst_at ≤ length c.dst
      → c.src_at < c'.src_at
      → c'.src_at ≤ length src
      → Sound src c (next c')
  rejects : Sound src c reject
  finishes : Sound src c finish

moved-Sound :
    (src : List ℕ) (c : Cursor) (s d : ℕ) (r : Option (List ℕ))
    → Written c.dst r
    → c.src_at < s
    → s ≤ length src
    → d ≤ length c.dst
    → Sound src c (moved s d r)
moved-Sound src c s d none (out, e, l) p q h = cc
moved-Sound src c s d (some buf) (out, e, l) p q h =
    goes_on (record { src_at = s; dst_at = d; dst = buf }) (ground (arith, e, l)) h p q

-- A test whose two branches are sound.
if-Sound :
    (src : List ℕ) (c : Cursor) (b : Bool) (x y : Pass)
    → (b ≡ true → Sound src c x)
    → (b ≡ false → Sound src c y)
    → Sound src c (if b then x else y)
if-Sound src c true x y p q = p refl
if-Sound src c false x y p q = q refl

copy_pair-Sound :
    (src : List ℕ) (c : Cursor) (s literals count back : ℕ)
    → c.src_at < s
    → Sound src c (copy_pair src c s literals count back)
unfolding copy_pair
copy_pair-Sound src c s literals count back p = if-Sound src c _ _ _ inside (λ _. rejects)
  where
    inside :
        (leb (s + literals) (length src)
            && leb (c.dst_at + (literals + count)) (length c.dst)
            && leb back (c.dst_at + literals))
          ≡ true
        → Sound src c (elim (copy_in c.dst c.dst_at src s literals) [
          | none ↦ broken
          | some buf ↦
              moved
                (s + literals)
                (c.dst_at + literals + count)
                (linear_move buf (c.dst_at + literals) (c.dst_at + literals - back) count)
        ])
    inside test =
        let fits : (s + literals ≤ length src)
            × (c.dst_at + (literals + count) ≤ length c.dst)
            × (back ≤ c.dst_at + literals) =
          ground arith in
        let (buf, e, l) =
          copy_in-Written literals c.dst c.dst_at src s (omega arith) (omega arith) in
        let (out, e', l') =
          linear_move-Written count buf (c.dst_at + literals) (c.dst_at + literals - back)
            (omega arith) (omega arith) in
        rw (e) (
          moved-Sound src c (s + literals) (c.dst_at + literals + count)
            (linear_move buf (c.dst_at + literals) (c.dst_at + literals - back) count)
            (out, e', omega arith) (omega arith) (omega arith) (omega arith))

run-Sound :
    (src : List ℕ) (c : Cursor) (n : ℕ)
    → Sound src c (
        if leb (c.src_at + 3) (length src) && leb (c.dst_at + n) (length c.dst)
        then (elim (get_elem? src (c.src_at + 2)) [
          | none ↦ broken
          | some v ↦ moved (c.src_at + 3) (c.dst_at + n) (fill c.dst c.dst_at v n)
        ])
        else reject)
run-Sound src c n = if-Sound src c _ _ _ inside (λ _. rejects)
  where
    inside :
        (leb (c.src_at + 3) (length src) && leb (c.dst_at + n) (length c.dst)) ≡ true
        → Sound src c (elim (get_elem? src (c.src_at + 2)) [
          | none ↦ broken
          | some v ↦ moved (c.src_at + 3) (c.dst_at + n) (fill c.dst c.dst_at v n)
        ])
    inside test =
        let fits : (c.src_at + 3 ≤ length src) × (c.dst_at + n ≤ length c.dst) = ground arith in
        let (v, e) = get_elem?-lt src (c.src_at + 2) (omega arith) in
        rw e (
          moved-Sound src c (c.src_at + 3) (c.dst_at + n) (fill c.dst c.dst_at v n)
            (fill-Written n c.dst c.dst_at v (omega arith)) (omega arith) (omega arith)
            (omega arith))

zero_byte-Sound :
    (src : List ℕ) (c : Cursor)
    → c.dst_at ≤ length c.dst
    → leb (c.src_at + 2) (length src) ≡ true
    → Sound src c (elim (get_elem? src (c.src_at + 1)) [
      | none ↦ broken
      | some n ↦
          if n == 0
          then next (record c { src_at = c.src_at + 2 })
          else (if leb (c.src_at + 3) (length src) && leb (c.dst_at + n) (length c.dst)
              then (elim (get_elem? src (c.src_at + 2)) [
                | none ↦ broken
                | some v ↦ moved (c.src_at + 3) (c.dst_at + n) (fill c.dst c.dst_at v n)
              ])
              else reject)
    ])
zero_byte-Sound src c at test =
    let (n, e) = get_elem?-lt src (c.src_at + 1) (ground arith) in
    rw e (
      if-Sound src c (n == 0) _ _
        (λ _. goes_on (record c { src_at = c.src_at + 2 }) refl at (omega arith) (ground arith))
        (λ _. run-Sound src c n))

pass_zero-Sound :
    (src : List ℕ) (c : Cursor) (b1 : ℕ)
    → c.dst_at ≤ length c.dst
    → Sound src c (pass_zero src c b1 (get_elem? src (c.src_at + 1)) (get_elem? src (c.src_at + 2)))
unfolding pass_zero
pass_zero-Sound src c b1 at =
    if-Sound src c (b1 == 0) _ _
      (λ _.
        if-Sound src c (leb (c.src_at + 2) (length src)) _ _ (λ test. zero_byte-Sound src c at test)
          (λ _. rejects))
      (λ _.
        if-Sound src c
          (leb (c.src_at + ((b1 >> 2) + 1)) (length src)
            && leb (c.dst_at + (b1 >> 2)) (length c.dst))
          _ _
          (λ test.
            let fits : (c.src_at + ((b1 >> 2) + 1) ≤ length src)
                × (c.dst_at + (b1 >> 2) ≤ length c.dst) =
              ground arith in
            moved-Sound src c (c.src_at + ((b1 >> 2) + 1)) (c.dst_at + (b1 >> 2))
              (copy_in c.dst c.dst_at src (c.src_at + 1) (b1 >> 2))
              (copy_in-Written (b1 >> 2) c.dst c.dst_at src (c.src_at + 1) (omega arith)
                (omega arith))
              (omega arith) (omega arith) (omega arith))
          (λ _. rejects))

-- A load that is inside of the source does not fail.
not-none : (src : List ℕ) (i n : ℕ) → i < n → leb n (length src) ≡ true → get_elem? src i ≢ none
not-none src i n h test e = let (v, e') = get_elem?-lt src i (ground arith) in cc (e, e')

pass_one-Sound :
    (src : List ℕ) (c : Cursor) (b1 : ℕ)
    → Sound src c (pass_one src c b1 (get_elem? src (c.src_at + 1)))
unfolding pass_one
pass_one-Sound src c b1 = elim (Option-cases (get_elem? src (c.src_at + 1))) [
  | inl e ↦ rw e (
      if-Sound src c (leb (c.src_at + 2) (length src)) _ _
        (λ test. absurd (not-none src (c.src_at + 1) (c.src_at + 2) (omega arith) test e))
        (λ _. rejects))
  | inr (v, e) ↦ rw e (
      if-Sound src c (leb (c.src_at + 2) (length src)) _ _
        (λ _.
          copy_pair-Sound src c (c.src_at + 2) (bit_and (b1 >> 2) 3) (bit_and (b1 >> 4) 7 + 3)
            (load16 b1 v >> 7) (omega arith))
        (λ _. rejects))
]

copy_back-Sound :
    (src : List ℕ) (c : Cursor) (count back : ℕ)
    → leb (c.src_at + 2) (length src) ≡ true
    → Sound src c (
        if leb (c.dst_at + count) (length c.dst) && leb back c.dst_at
        then moved
            (c.src_at + 2)
            (c.dst_at + count)
            (linear_move c.dst c.dst_at (c.dst_at - back) count)
        else reject)
copy_back-Sound src c count back test =
    if-Sound src c (leb (c.dst_at + count) (length c.dst) && leb back c.dst_at) _ _
      (λ room.
        let fits : (c.dst_at + count ≤ length c.dst) × (back ≤ c.dst_at) = ground arith in
        moved-Sound src c (c.src_at + 2) (c.dst_at + count)
          (linear_move c.dst c.dst_at (c.dst_at - back) count)
          (linear_move-Written count c.dst c.dst_at (c.dst_at - back) (omega arith) (omega arith))
          (omega arith) (ground arith) (omega arith))
      (λ _. rejects)

pass_two-Sound :
    (src : List ℕ) (c : Cursor) (b1 : ℕ)
    → Sound src c (pass_two src c b1 (get_elem? src (c.src_at + 1)))
unfolding pass_two
pass_two-Sound src c b1 = elim (Option-cases (get_elem? src (c.src_at + 1))) [
  | inl e ↦ rw e (
      if-Sound src c (leb (c.src_at + 2) (length src)) _ _
        (λ test. absurd (not-none src (c.src_at + 1) (c.src_at + 2) (omega arith) test e))
        (λ _. rejects))
  | inr (v, e) ↦ rw e (
      if-Sound src c (leb (c.src_at + 2) (length src)) _ _ (λ test. copy_back-Sound src c _ _ test)
        (λ _. rejects))
]

pass_three-Sound :
    (src : List ℕ) (c : Cursor) (b1 : ℕ)
    → Sound src c
        (pass_three src c b1 (get_elem? src (c.src_at + 1)) (get_elem? src (c.src_at + 2)))
unfolding pass_three
pass_three-Sound src c b1 = elim (Option-cases (get_elem? src (c.src_at + 1))) [
  | inl e ↦ rw e (
      if-Sound src c (leb (c.src_at + 3) (length src)) _ _
        (λ test. absurd (not-none src (c.src_at + 1) (c.src_at + 3) (omega arith) test e))
        (λ _. rejects))
  | inr (v, e) ↦ elim (Option-cases (get_elem? src (c.src_at + 2))) [
    | inl e' ↦
        rw (e, e')
          (if-Sound src c (leb (c.src_at + 3) (length src)) _ _
            (λ test. absurd (not-none src (c.src_at + 2) (c.src_at + 3) (omega arith) test e'))
            (λ _. rejects))
    | inr (w, e') ↦
        rw (e, e')
          (if-Sound src c (leb (c.src_at + 3) (length src)) _ _
            (λ _.
              copy_pair-Sound src c (c.src_at + 3) (bit_and (b1 >> 2) 0x0F)
                (bit_and (load16 b1 v >> 6) 0x3F) (load16 v w >> 4) (omega arith))
            (λ _. rejects))
  ]
]

switch-Sound :
    (src : List ℕ) (c : Cursor) (b1 : ℕ)
    → c.dst_at ≤ length c.dst
    → Sound src c (
        let second = get_elem? src (c.src_at + 1) in
        let third = get_elem? src (c.src_at + 2) in
        if bit_and b1 3 == 0
        then pass_zero src c b1 second third
        else (if bit_and b1 3 == 1
            then pass_one src c b1 second
            else (if bit_and b1 3 == 2
                then pass_two src c b1 second
                else pass_three src c b1 second third)))
switch-Sound src c b1 at =
    if-Sound src c (bit_and b1 3 == 0) _ _ (λ _. pass_zero-Sound src c b1 at)
      (λ _.
        if-Sound src c (bit_and b1 3 == 1) _ _ (λ _. pass_one-Sound src c b1)
          (λ _.
            if-Sound src c (bit_and b1 3 == 2) _ _ (λ _. pass_two-Sound src c b1)
              (λ _. pass_three-Sound src c b1)))

pub pass-Sound : (src : List ℕ) (c : Cursor) → c.dst_at ≤ length c.dst → Sound src c (pass src c)
unfolding pass
pass-Sound src c at =
    if-Sound src c (leb (c.src_at + 1) (length src)) _ _
      (λ test.
        let (b1, e) = get_elem?-lt src c.src_at (ground arith) in rw e (switch-Sound src c b1 at))
      (λ _. finishes)
