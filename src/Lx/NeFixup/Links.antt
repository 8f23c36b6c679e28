-- ===== src/Lx/NeFixup/Links.antt =====
-- lx_loader.c, fixupNeSegment: the places of a chain, and that the loop visits each of them.
use ine_debugger.Prelude.{ℕ, zero, suc, ◌+◌, ◌<◌, ◌≤◌, ◌≡◌, refl, arith, true, ◌⊎◌}
use ine_debugger.Prelude.{List, [], ◌∷◌, All, ltb}
use ine_debugger.Prelude.Memory.{Outcome, ok, stuck, ◌>>=◌, load16}
use ine_debugger.Lx.NeFixup.{put_source, source_chain}

-- A chain of places in a segment: each is within its size and holds the next; the last holds an
-- offset that is not.
abbrev pub Linked : List ℕ → ℕ → ℕ → List ℕ → Type 0
Linked dst size start [] = size ≤ start
Linked dst size start (o ∷ os) =
    (start ≡ o) × (o < size) × ((next : ℕ) × (load16 dst o ≡ ok next) × Linked dst size next os)

-- No place meets the four bytes from an earlier one on.
abbrev pub Apart : List ℕ → Type 0
Apart [] = Unit
Apart (o ∷ os) = All (λ j. j + 2 ≤ o ⊎ o + 4 ≤ j) os × Apart os

abbrev pub put_all : ℕ → ℕ → List ℕ → List ℕ → Outcome (List ℕ)
put_all kind target [] dst = ok dst
put_all kind target (o ∷ os) dst = put_source dst kind o target >>= put_all kind target os

-- A place that holds its own offset is never left where nothing is written there.
self_link-stuck :
    (fuel kind target size at : ℕ) (dst : List ℕ)
    → 5 < kind
    → at < size
    → load16 dst at ≡ ok at
    → source_chain fuel size kind target at dst ≡ stuck
unfolding source_chain put_source
self_link-stuck zero kind target size at dst h inside loads = refl
self_link-stuck (suc fuel) kind target size at dst h inside loads =
    let more : ltb at size ≡ true = ground (arith, inside) in
    let nothing : put_source dst kind at target ≡ ok dst = ground (arith, h) in
    rw (source_chain, more, loads, nothing)
      (self_link-stuck fuel kind target size at dst h inside loads)
