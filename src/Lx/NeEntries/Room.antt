-- ===== src/Lx/NeEntries/Room.antt =====
-- lx_loader.c: the second pass over the entry table of an NE module fits into what the first counted.
use mathlib.Core.Path.{subst}
use ine_debugger.Lx.Entries.{object_at}
use ine_debugger.Lx.Entries.Room.{put_export_suc, bundle_room, length-put_export, length-bundle}
use ine_debugger.Lx.NeEntries.{
  bundle_size, count_exports, kind_of, Next, and_then, movable_entries, fixed_entries, load_bundle,
  load_exports,
}
use ine_debugger.Lx.Bundles.{at_end, over, count_bundles, count_bundles-CountEnds, count_le}
use ine_debugger.Lx.{Export, Object}
use ine_debugger.Prelude.{ℕ, zero, suc, ◌+◌, ◌-◌, ◌*◌, ◌≤◌, ◌≡◌, refl, sym, ◌∙◌, arith, inl, inr}
use ine_debugger.Prelude.{false, List, [], length, length-append}
use ine_debugger.Prelude.{◌==◌, Bool-cases}
use ine_debugger.Prelude.Memory.{
  Outcome, ok, crash, halt, stuck, bind_cong, ok_of_bind, load8, load16,
}

-- No more exports than were counted.
abbrev pub Within : ℕ → Outcome (List Export) → Type 0
Within total (ok exports) = length exports ≤ total
Within total crash = Unit
Within total halt = Unit
Within total stuck = Unit

and_then-Within :
    (n m : ℕ) (exports rest : Outcome (List Export))
    → ((es : List Export) → exports ≡ ok es → length es ≡ n)
    → Within m rest
    → Within (n + m) (and_then exports rest)
and_then-Within n m (ok first) (ok later) h f =
    omega (arith, length-append first later, h first refl, f)
and_then-Within n m (ok first) crash h f = tt
and_then-Within n m (ok first) halt h f = tt
and_then-Within n m (ok first) stuck h f = tt
and_then-Within n m crash rest h f = tt
and_then-Within n m halt rest h f = tt
and_then-Within n m stuck rest h f = tt

more-Within :
    (n m : ℕ) (exports : Outcome (List Export)) → n ≤ m → Within n exports → Within m exports
more-Within n m (ok exports) h w = omega (arith, w)
more-Within n m crash h w = tt
more-Within n m halt h w = tt
more-Within n m stuck h w = tt

module _ (mem : List ℕ) (objects : List Object) where
  movable_room :
      (n p ordinal room room' : ℕ)
      → n ≤ room
      → n ≤ room'
      → movable_entries mem objects n p ordinal room ≡ movable_entries mem objects n p ordinal room'
  unfolding movable_entries
  movable_room zero p ordinal room room' h k = refl
  movable_room (suc n) p ordinal room room' h k = bind_cong (load8 mem (p + 3)) _ _ λ segment.
      bind_cong (load16 mem (p + 4)) _ _ λ offset. bind_cong (object_at objects _) _ _ λ object.
        put_export_suc room room' ordinal offset object _ _ (omega arith) (omega arith)
          (movable_room n (p + 6) (ordinal + 1) (room - 1) (room' - 1) (omega arith) (omega arith))

  length-movable :
      (n p ordinal room : ℕ) (es : List Export)
      → movable_entries mem objects n p ordinal room ≡ ok es
      → length es ≡ n
  unfolding movable_entries
  length-movable zero p ordinal room es e = ground arith
  length-movable (suc n) p ordinal room es e =
      let (segment, read, rest) = ok_of_bind (load8 mem (p + 3)) _ es e in
      let (offset, read', rest') = ok_of_bind (load16 mem (p + 4)) _ es rest in
      let (object, found, made) = ok_of_bind (object_at objects _) _ es rest' in
      length-put_export room ordinal offset n object _ es
        (length-movable n (p + 6) (ordinal + 1) (room - 1)) made

  fixed_room :
      (type n p ordinal room room' : ℕ)
      → n ≤ room
      → n ≤ room'
      → fixed_entries mem objects type n p ordinal room
        ≡ fixed_entries mem objects type n p ordinal room'
  unfolding fixed_entries
  fixed_room type n p ordinal room room' h k =
      bind_cong (object_at objects _) _ _
        λ object. bundle_room false mem object n p ordinal room room' h k

  length-fixed :
      (type n p ordinal room : ℕ) (es : List Export)
      → fixed_entries mem objects type n p ordinal room ≡ ok es
      → length es ≡ n
  unfolding fixed_entries
  length-fixed type n p ordinal room es e =
      let (object, found, made) = ok_of_bind (object_at objects _) _ es e in
      length-bundle false mem object n p ordinal room es made

  -- The rest of the table fits into a room, and more room makes no difference.
  Fits : ℕ → ℕ → ℕ → Next → ℕ → Type 0
  Fits room extra q next ordinal =
      (next q ordinal (room + extra) ≡ next q ordinal room) × Within room (next q ordinal room)

  -- A bundle of `n` entries in front of a rest that fits.
  part-Fits :
      (n q ordinal room extra : ℕ) (exports exports' : Outcome (List Export)) (next : Next)
      → n ≤ room
      → exports' ≡ exports
      → ((es : List Export) → exports ≡ ok es → length es ≡ n)
      → Fits (room - n) extra q next (ordinal + n)
      → (and_then exports' (next q (ordinal + n) (room + extra - n))
          ≡ and_then exports (next q (ordinal + n) (room - n)))
        × Within room (and_then exports (next q (ordinal + n) (room - n)))
  unfolding Fits
  part-Fits n q ordinal room extra exports exports' next h own size (same, filled) =
      let left : room + extra - n ≡ room - n + extra = omega arith in
      let sum : n + (room - n) ≡ room = omega arith in
      (
        rw (own, left, same) refl,
        subst (λ (t : ℕ). Within t (and_then exports (next q (ordinal + n) (room - n)))) sum
            (and_then-Within n (room - n) exports (next q (ordinal + n) (room - n)) size filled),
      )

  -- What fits without the ordinals of a gap fits with them.
  gap-Fits :
      (n : ℕ) (rest : ℕ → Outcome (List Export)) (room extra : ℕ)
      → n ≤ room
      → ((more : ℕ) → rest (room - n + more) ≡ rest (room - n))
      → Within (room - n) (rest (room - n))
      → (rest (room + extra) ≡ rest room) × Within room (rest room)
  gap-Fits n rest room extra h same w =
      let far : room - n + (extra + n) ≡ room + extra = omega arith in
      let near : room - n + n ≡ room = omega arith in
      let at_far = rw far at (same (extra + n)) in
      let at_near = rw near at (same n) in
      (at_far ∙ sym at_near, rw at_near (more-Within (room - n) room _ (omega arith) w))

  bundle-Fits :
      (type n p ordinal room extra : ℕ) (next : Next)
      → n ≤ room
      → ((more : ℕ) → Fits (room - n) more (p + bundle_size type n) next (ordinal + n))
      → Fits room extra p (load_bundle mem objects (kind_of type) n next) ordinal
  unfolding kind_of Fits load_bundle
  bundle-Fits type n p ordinal room extra next h f = elim (Bool-cases (type == 0)) [
    | inl gap ↦
        let here : p + 0 ≡ p = omega arith in
        let all = λ (more : ℕ). rw (gap, here) at (f more) in
        rw gap (gap-Fits n (next p (ordinal + n)) room extra h (λ more. (all more).0) (all 0).1)
    | inr full ↦ elim (Bool-cases (type == 0xff)) [
      | inl moves ↦
          let behind : Fits (room - n) extra (p + 6 * n) next (ordinal + n) =
            rw (full, moves) at (f extra) in
          rw (full, moves)
            (part-Fits n (p + 6 * n) ordinal room extra _ _ next h
              (movable_room n p ordinal (room + extra) room (omega arith) h)
              (length-movable n p ordinal room) behind)
      | inr stays ↦
          let behind : Fits (room - n) extra (p + 3 * n) next (ordinal + n) =
            rw (full, stays) at (f extra) in
          rw (full, stays)
            (part-Fits n (p + 3 * n) ordinal room extra _ _ next h
              (fixed_room type n p ordinal (room + extra) room (omega arith) h)
              (length-fixed type n p ordinal room) behind)
    ]
  ]

  load_step :
      (fuel p ordinal room n type : ℕ)
      → load8 mem p ≡ ok n
      → (n == 0) ≡ false
      → load8 mem (p + 1) ≡ ok type
      → load_exports mem objects (suc fuel) p ordinal room
        ≡ load_bundle mem objects
            (kind_of type)
            n
            (load_exports mem objects fuel)
            (p + 2)
            ordinal
            room
  unfolding load_exports
  load_step fuel p ordinal room n type read more read' = rw (read, more, read') refl

  load_end :
      (fuel p ordinal room : ℕ)
      → load8 mem p ≡ ok 0
      → load_exports mem objects (suc fuel) p ordinal room ≡ ok []
  unfolding load_exports
  load_end fuel p ordinal room read = rw read refl

  load_exports-Fits :
      (fuel p acc ordinal room extra : ℕ)
      → count_exports fuel mem p acc ≡ ok (acc + room)
      → Fits room extra p (load_exports mem objects fuel) ordinal
  unfolding Fits
  load_exports-Fits zero p acc ordinal room extra e = unfold count_bundles in cc e
  load_exports-Fits (suc fuel) p acc ordinal room extra e =
      elim (count_bundles-CountEnds bundle_size (λ type n. n) mem fuel p acc (acc + room) e) [
        | at_end read same ↦
            rw (load_end fuel p ordinal room read, load_end fuel p ordinal (room + extra) read)
              (refl, omega arith)
        | over n type read more read' further ↦
            let low =
              count_le bundle_size (λ type n. n) mem fuel _ (acc + n) (acc + room) further in
            let split : acc + room ≡ acc + n + (room - n) = omega (arith, low) in
            let next = λ (more : ℕ).
              load_exports-Fits fuel (p + 2 + bundle_size type n) (acc + n) (ordinal + n) (room - n)
                more (rw split at further) in
            let step = λ (r : ℕ). load_step fuel p ordinal r n type read more read' in
            let fits =
              bundle-Fits type n (p + 2) ordinal room extra (load_exports mem objects fuel)
                (omega (arith, low)) next in
            rw (step (room + extra), step room) fits
      ]

-- Whatever bytes the first pass counts, the second one, over the same table, never needs more room
-- than was counted: with more it would end the same way. Where it ends, the exports are at most as
-- many as were counted.
pub ne_load_exports-count_exports :
    (mem : List ℕ) (objects : List Object) (fuel p ordinal total extra : ℕ)
    → count_exports fuel mem p 0 ≡ ok total
    → (load_exports mem objects fuel p ordinal (total + extra)
        ≡ load_exports mem objects fuel p ordinal total)
      × Within total (load_exports mem objects fuel p ordinal total)
unfolding Fits
ne_load_exports-count_exports mem objects fuel p ordinal total extra e =
    let same : 0 + total ≡ total = omega arith in
    load_exports-Fits mem objects fuel p 0 ordinal total extra (rw same e)
