-- ===== src/Lx/Pages/Objects.antt =====
-- lx_loader.c: the memory of an object is what its pages mean, one behind the other, and zeros.
use mathlib.Core.List.{append_assoc, append-nil}
use ine_debugger.Lx.Pages.{ObjectPage, Image, load_page, load_pages, load_object}
use ine_debugger.Prelude.{ℕ, ◌+◌, ◌-◌, ◌*◌, ◌^◌, ◌≤◌, ◌<◌, ◌≡◌, refl, ap, ◌∙◌, arith}
use ine_debugger.Prelude.{Option, none, some, List, [], ◌∷◌, ◌++◌, All, inl, inr}
use ine_debugger.Prelude.{◌==◌, length, replicate, Bool-cases, length-append, length-replicate}
use ine_debugger.Prelude.Word.{sub32}
use ine_debugger.Prelude.Memory.{ok}
use ine_debugger.Lx.Pages.Contents.{
  contents, IsSound, filled, PageLoaded, put_page-PageLoaded, load_page-PageLoaded,
}

-- What the pages of an object mean together, and the zeros behind them.
abbrev pub joined : Option (List ℕ) → Option (List ℕ) → Option (List ℕ)
joined none rest = none
joined (some bytes) none = none
joined (some bytes) (some more) = some (bytes ++ more)

abbrev pub pages_contents : Image → List ObjectPage → Option (List ℕ)
pages_contents f [] = some []
pages_contents f (page ∷ pages) = joined (contents f page) (pages_contents f pages)

abbrev pub object_contents : Image → ℕ → List ObjectPage → Option (List ℕ)
object_contents f vsize pages = elim (pages_contents f pages) [
  | none ↦ none
  | some bytes ↦ some (bytes ++ replicate (vsize - length bytes) 0)
]

-- The mapping at the end, with what was written before and what the pages mean.
abbrev finished : List ℕ → ℕ → Option (List ℕ) → Option (List ℕ)
finished front vsize none = none
finished front vsize (some bytes) =
    some (front ++ (bytes ++ replicate (vsize - length front - length bytes) 0))

finished_more :
    (front bytes : List ℕ) (vsize : ℕ) (rest : Option (List ℕ))
    → finished (front ++ bytes) vsize rest ≡ finished front vsize (joined (some bytes) rest)
finished_more front bytes vsize none = refl
finished_more front bytes vsize (some more) =
    let left : vsize - length (front ++ bytes) - length more
        ≡ vsize - length front - length (bytes ++ more) =
      omega (arith, length-append front bytes, length-append bytes more) in
    let zeros = replicate {A = ℕ} (vsize - length front - length (bytes ++ more)) 0 in
    rw (left, append_assoc front bytes (more ++ zeros), append_assoc bytes more zeros) refl

-- The bytes behind the pages.
end_of_object :
    (f : Image) (front : List ℕ) (k vsize : ℕ)
    → length front + k ≡ vsize
    → vsize < 2 ^ 32
    → load_pages f vsize [] (filled front k) (length front) ≡ ok (finished front vsize (some []))
unfolding load_pages PageLoaded
end_of_object f front k vsize sum small =
    let remain : sub32 vsize (length front) ≡ k = omega arith in
    let left : vsize - length front - 0 ≡ k = omega arith in
    elim (Bool-cases (k == 0)) [
      | inl full ↦ rw (remain, full, left) refl
      | inr short ↦
          let zeros =
            put_page-PageLoaded front (replicate k 0) k k (length-replicate k 0) (omega arith) in
          let none_left : k - k ≡ 0 = omega arith in
          rw (remain, short, left)
            (zeros.0 ∙ rw (none_left, append-nil (front ++ replicate k 0)) refl)
    ]

load_pages_cons :
    (f : Image) (vsize : ℕ) (page : ObjectPage) (pages : List ObjectPage) (front : List ℕ) (k : ℕ)
    (o : Option (List ℕ))
    → contents f page ≡ o
    → PageLoaded front k f.page_size o (load_page f (filled front k) (length front) page)
    → ((bytes : List ℕ)
        → length bytes ≡ f.page_size
        → load_pages f vsize pages
            (filled (front ++ bytes) (k - f.page_size))
            (length (front ++ bytes))
          ≡ ok (finished (front ++ bytes) vsize (pages_contents f pages)))
    → load_pages f vsize (page ∷ pages) (filled front k) (length front)
      ≡ ok (finished front vsize (pages_contents f (page ∷ pages)))
unfolding load_pages PageLoaded
load_pages_cons f vsize page pages front k none e loaded rest =
    let meant = ap (λ (c : Option (List ℕ)). joined c (pages_contents f pages)) e in
    rw (loaded, meant) refl
load_pages_cons f vsize page pages front k (some bytes) e (loaded, size) rest =
    let meant = ap (λ (c : Option (List ℕ)). joined c (pages_contents f pages)) e in
    let place : length front + f.page_size ≡ length (front ++ bytes) =
      omega (arith, length-append front bytes) in
    rw (loaded, place, meant)
      (rest bytes size ∙ ap ok (finished_more front bytes vsize (pages_contents f pages)))

load_pages-contents :
    (f : Image) (vsize : ℕ) (pages : List ObjectPage) (front : List ℕ) (k : ℕ)
    → All (IsSound f) pages
    → length front + k ≡ vsize
    → vsize < 2 ^ 32
    → length pages * f.page_size ≤ k
    → load_pages f vsize pages (filled front k) (length front)
      ≡ ok (finished front vsize (pages_contents f pages))
load_pages-contents f vsize [] front k sound sum small fits =
    end_of_object f front k vsize sum small
load_pages-contents f vsize (page ∷ pages) front k (first, others) sum small fits =
    let room : f.page_size + length pages * f.page_size ≤ k = grind arith in
    load_pages_cons f vsize page pages front k (contents f page) refl
      (load_page-PageLoaded f page front k first (omega (arith, room)))
      λ bytes size.
        load_pages-contents f vsize pages (front ++ bytes) (k - f.page_size) others
          (omega (arith, length-append front bytes, room)) small (omega (arith, room))

-- An object whose pages fit into its mapping is loaded with what its pages mean: preloaded data with
-- zeros behind them up to the size of a page, expanded blocks, unpacked bytes, or zeros, page behind
-- page, and zeros up to the end. Where a page cannot be unpacked or is of another kind, the load
-- fails. The data of the pages lie within the file, those that are copied are no longer than a page,
-- and the mapping is smaller than 2 ^ 32.
pub load_object-object_contents :
    (f : Image) (vsize : ℕ) (pages : List ObjectPage)
    → All (IsSound f) pages
    → vsize < 2 ^ 32
    → length pages * f.page_size ≤ vsize
    → load_object f vsize pages ≡ ok (object_contents f vsize pages)
unfolding load_object
load_object-object_contents f vsize pages sound small fits =
    load_pages-contents f vsize pages [] vsize sound (omega arith) small fits
    ∙ ap ok (from_start (pages_contents f pages))
  where
    from_start :
        (o : Option (List ℕ))
        → finished [] vsize o ≡ (elim o [
          | none ↦ none
          | some bytes ↦ some (bytes ++ replicate (vsize - length bytes) 0)
        ])
    from_start none = refl
    from_start (some bytes) =
        let same : vsize - 0 - length bytes ≡ vsize - length bytes = omega arith in rw same refl
