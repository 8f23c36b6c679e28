-- ===== src/Lx/Pages/Contents.antt =====
-- lx_loader.c: the memory of an object is what its pages mean, one behind the other, and zeros.
use mathlib.Core.List.{append_assoc, append-nil}
use ine_debugger.Lx.Pages.{
  ObjectPage, Image, source_at, source, put_bytes, Loaded, put_page, put_unpacked, preload,
  load_page,
}
use ine_debugger.Prelude.{ℕ, zero, suc, ◌+◌, ◌-◌, ◌≤◌, ◌≡◌, refl, sym, ap, ◌∙◌, arith}
use ine_debugger.Prelude.{Option, none, some, true, List, [], ◌∷◌, ◌++◌, All, inl, inr}
use ine_debugger.Prelude.{
  ltb, leb, ◌==◌, if◌then◌else◌, length, take, drop, replicate, Bool-cases, length-append,
  length-replicate, length-take, take-append, drop-append,
}
use ine_debugger.Prelude.Word.{IsByte}
use ine_debugger.Prelude.Memory.{ok}
use ine_debugger.Unpack.Iterated.{iterated-Returns}
use ine_debugger.Unpack.Pack2.{Returns, decompress_exe_pack2-Returns}
use ine_debugger.Unpack.{Unpacked, decompress_iterated, decompress_exe_pack2}

-- The bytes of the file that a page stands for.
abbrev pub raw : Image → ObjectPage → List ℕ
raw f page = take page.data_size (drop (source_at f page) f.origexe)

abbrev pub unpacked : Unpacked → Option (List ℕ)
unpacked (Unpacked.ok out) = some out
unpacked Unpacked.failed = none
unpacked Unpacked.fault = none
unpacked Unpacked.stuck = none

-- What a page means: its data and zeros, blocks, compressed bytes, or zeros; else the load fails.
abbrev pub contents : Image → ObjectPage → Option (List ℕ)
contents f page =
    if page.flags == 0
    then some (raw f page ++ replicate (f.page_size - length (raw f page)) 0)
    else (if page.flags == 1
        then unpacked (decompress_iterated f.page_size (raw f page))
        else (if page.flags == 2
            then some (replicate f.page_size 0)
            else (if page.flags == 3
                then some (replicate f.page_size 0)
                else (if page.flags == 5
                    then unpacked (decompress_exe_pack2 (replicate f.page_size 0) (raw f page))
                    else none))))

-- The source of a page is within the file, which is made of bytes, and data to be copied fit into a
-- page.
pub record IsSound (f : Image) (page : ObjectPage) : Type 0 where
  pub within : source_at f page + page.data_size ≤ length f.origexe
  pub bytes : All IsByte (raw f page)
  pub fits : page.flags ≡ 0 → page.data_size ≤ f.page_size

-- A mapping whose first bytes are written, and the rest is as it was.
abbrev pub filled : List ℕ → ℕ → List ℕ
filled front k = front ++ replicate k 0

drop_zeros : (n k : ℕ) → drop n (replicate {A = ℕ} k 0) ≡ replicate (k - n) 0
drop_zeros zero k = let same : k ≡ k - 0 = omega arith in ap (λ (t : ℕ). replicate t 0) same
drop_zeros (suc n) zero =
    let same : 0 ≡ 0 - suc n = omega arith in ap (λ (t : ℕ). replicate t 0) same
drop_zeros (suc n) (suc k) =
    let same : k - n ≡ suc k - suc n = omega arith in
    drop_zeros n k ∙ ap (λ (t : ℕ). replicate t 0) same

take_zeros : (n k : ℕ) → n ≤ k → take n (replicate {A = ℕ} k 0) ≡ replicate n 0
take_zeros zero k h = refl
take_zeros (suc n) zero h = absurd (omega arith)
take_zeros (suc n) (suc k) h = ap (λ (t : List ℕ). 0 ∷ t) (take_zeros n k (omega arith))

drop_more : (xs ys : List ℕ) (n : ℕ) → drop (length xs + n) (xs ++ ys) ≡ drop n ys
drop_more [] ys n = let same : 0 + n ≡ n = omega arith in ap (λ (t : ℕ). drop t ys) same
drop_more (x ∷ xs) ys n =
    let up : suc (length xs) + n ≡ suc (length xs + n) = omega arith in rw up (drop_more xs ys n)

put_bytes-filled :
    (front bytes : List ℕ) (k : ℕ)
    → length bytes ≤ k
    → put_bytes (filled front k) (length front) bytes
      ≡ ok (filled (front ++ bytes) (k - length bytes))
unfolding put_bytes
put_bytes-filled front bytes k h =
    let size = length-append front (replicate k 0) in
    let zeros = length-replicate {A = ℕ} k 0 in
    let room : leb (length front + length bytes) (length (filled front k)) ≡ true =
      ground (arith, size, zeros) in
    let rest = drop_more front (replicate k 0) (length bytes) ∙ drop_zeros (length bytes) k in
    rw (room, take-append front (replicate k 0), rest)
      (ap ok (sym (append_assoc front bytes (replicate (k - length bytes) 0))))

-- A page of known size is in its place, or the load fails.
unfoldable pub PageLoaded : List ℕ → ℕ → ℕ → Option (List ℕ) → Loaded → Type 0
PageLoaded front k size none r = r ≡ ok none
PageLoaded front k size (some bytes) r =
    (r ≡ ok (some (filled (front ++ bytes) (k - size)))) × (length bytes ≡ size)

pub put_page-PageLoaded :
    (front bytes : List ℕ) (k size : ℕ)
    → length bytes ≡ size
    → size ≤ k
    → PageLoaded front k size (some bytes) (put_page (filled front k) (length front) bytes)
unfolding put_page PageLoaded
put_page-PageLoaded front bytes k size e h =
    let written = put_bytes-filled front bytes k (omega arith) in (rw written (rw e refl), e)

put_unpacked-PageLoaded :
    (front : List ℕ) (k size : ℕ) (u : Unpacked)
    → Returns size u
    → size ≤ k
    → PageLoaded front k size (unpacked u) (put_unpacked (filled front k) (length front) u)
unfolding put_unpacked
put_unpacked-PageLoaded front k size (Unpacked.ok out) e h =
    put_page-PageLoaded front out k size e h
put_unpacked-PageLoaded front k size Unpacked.failed e h = unfold PageLoaded in refl
put_unpacked-PageLoaded front k size Unpacked.fault e h = absurd e
put_unpacked-PageLoaded front k size Unpacked.stuck e h = absurd e

preload-PageLoaded :
    (front src : List ℕ) (k size : ℕ)
    → length src ≤ size
    → size ≤ k
    → PageLoaded front k size
        (some (src ++ replicate (size - length src) 0))
        (preload size (filled front k) (length front) src)
unfolding preload PageLoaded
preload-PageLoaded front src k size small h =
    let written = put_bytes-filled front src k (omega arith) in
    let zeros : List ℕ = replicate (size - length src) 0 in
    let zeros_length : length zeros ≡ size - length src = length-replicate (size - length src) 0 in
    let place : length front + length src ≡ length (front ++ src) = sym (length-append front src) in
    let whole : length (src ++ zeros) ≡ size =
      omega (arith, length-append src zeros, zeros_length) in
    let left : k - length src - (size - length src) ≡ k - size = omega arith in
    let together = append_assoc front src zeros in
    elim (Bool-cases (ltb (length src) size)) [
      | inl short ↦
          let more =
            put_page-PageLoaded (front ++ src) zeros (k - length src) (size - length src)
              zeros_length (omega arith) in
          rw (written, short, place) (more.0 ∙ rw (left, together) refl, whole)
      | inr full ↦
          let exact : length src ≡ size = ground (arith, full) in
          let none_left : size - length src ≡ 0 = omega (arith, exact) in
          let end = append-nil src in rw (written, full) (rw (none_left, end, exact) (refl, refl))
    ]

source_ok : (f : Image) (page : ObjectPage) → IsSound f page → source f page ≡ ok (raw f page)
unfolding source
source_ok f page sound =
    let inside : leb (source_at f page + page.data_size) (length f.origexe) ≡ true =
      ground (arith, sound.within) in
    rw inside refl

pub load_page-PageLoaded :
    (f : Image) (page : ObjectPage) (front : List ℕ) (k : ℕ)
    → IsSound f page
    → f.page_size ≤ k
    → PageLoaded front k f.page_size
        (contents f page)
        (load_page f (filled front k) (length front) page)
unfolding load_page
load_page-PageLoaded f page front k sound h =
    let read = source_ok f page sound in
    let zero_page = replicate {A = ℕ} f.page_size 0 in
    let zeros =
      put_page-PageLoaded front zero_page k f.page_size (length-replicate {A = ℕ} f.page_size 0)
        h in
    let page_there : take f.page_size (drop (length front) (filled front k)) ≡ zero_page =
      rw (drop-append front (replicate k 0)) (take_zeros f.page_size k h) in
    elim (Bool-cases (page.flags == 0)) [
      | inl f0 ↦
          let small : length (raw f page) ≤ f.page_size = omega (
            arith,
            sound.fits (ground (arith, f0)),
            length-take page.data_size (drop (source_at f page) f.origexe),
          ) in
          rw (f0, read) (preload-PageLoaded front (raw f page) k f.page_size small h)
      | inr n0 ↦ elim (Bool-cases (page.flags == 1)) [
        | inl f1 ↦
            let u = decompress_iterated f.page_size (raw f page) in
            rw (n0, f1, read)
              (put_unpacked-PageLoaded front k f.page_size u
                (iterated-Returns f.page_size (raw f page) u sound.bytes refl) h)
        | inr n1 ↦ elim (Bool-cases (page.flags == 2)) [
          | inl f2 ↦ rw (n0, n1, f2) zeros
          | inr n2 ↦ elim (Bool-cases (page.flags == 3)) [
            | inl f3 ↦ rw (n0, n1, n2, f3) zeros
            | inr n3 ↦ elim (Bool-cases (page.flags == 5)) [
              | inl f5 ↦
                  let u = decompress_exe_pack2 zero_page (raw f page) in
                  let size = length-replicate {A = ℕ} f.page_size 0 in
                  rw (n0, n1, n2, n3, f5, read, page_there)
                    (put_unpacked-PageLoaded front k f.page_size u
                      (rw size at (decompress_exe_pack2-Returns zero_page (raw f page))) h)
              | inr n5 ↦ rw (n0, n1, n2, n3, n5) (unfold PageLoaded in refl)
            ]
          ]
        ]
      ]
    ]
