-- ===== src/Lx/Entries/Room.antt =====
-- lx_loader.c: the second pass over an entry table fits into what the first one counted.
use mathlib.Core.Path.{subst}
use ine_debugger.Lx.Entries.{
  object_at, put_export, load_offset, bundle_entries, and_then, bundle_type, entries, kind_of,
  bundle_size, bundle_count, count_exports, Next, object_entries, load_bundle, load_exports,
}
use ine_debugger.Lx.Bundles.{at_end, over, count_bundles, count_bundles-CountEnds, count_le}
use ine_debugger.Lx.{Export, Object}
use ine_debugger.Prelude.{ℕ, zero, suc, ◌+◌, ◌-◌, ◌*◌, ◌≤◌, ◌≡◌, refl, arith, inl, inr}
use ine_debugger.Prelude.{Bool, true, false, Option, none, some, List, [], length, length-append}
use ine_debugger.Prelude.{◌==◌, if◌then◌else◌, Bool-cases}
use ine_debugger.Prelude.Memory.{
  Outcome, ok, crash, halt, stuck, bind_cong, ok_of_bind, load8, load16,
}

pub put_export_suc :
    (room room' ordinal offset : ℕ) (object : Object) (rest rest' : Outcome (List Export))
    → 1 ≤ room
    → 1 ≤ room'
    → rest ≡ rest'
    → put_export room ordinal object offset rest ≡ put_export room' ordinal object offset rest'
put_export_suc zero room' ordinal offset object rest rest' h k e = absurd (omega arith)
put_export_suc (suc room) zero ordinal offset object rest rest' h k e = absurd (omega arith)
put_export_suc (suc room) (suc room') ordinal offset object rest rest' h k e = rw e refl

-- What the array has beyond the entries makes no difference.
pub bundle_room :
    (wide : Bool) (mem : List ℕ) (object : Object) (n p ordinal room room' : ℕ)
    → n ≤ room
    → n ≤ room'
    → bundle_entries wide mem object n p ordinal room
      ≡ bundle_entries wide mem object n p ordinal room'
unfolding bundle_entries
bundle_room wide mem object zero p ordinal room room' h k = refl
bundle_room wide mem object (suc n) p ordinal room room' h k =
    bind_cong (load_offset wide mem (p + 1)) _ _ λ offset.
      put_export_suc room room' ordinal offset object _ _ (omega arith) (omega arith) (
        bundle_room wide mem object n (p + (if wide then 5 else 3)) (ordinal + 1) (room - 1)
          (room' - 1) (omega arith) (omega arith))

pub length-put_export :
    (room ordinal offset n : ℕ) (object : Object) (rest : Outcome (List Export)) (es : List Export)
    → ((others : List Export) → rest ≡ ok others → length others ≡ n)
    → put_export room ordinal object offset rest ≡ ok es
    → length es ≡ suc n
length-put_export zero ordinal offset n object rest es h e = cc
length-put_export (suc room) ordinal offset n object rest es h e =
    let (others, read, made) = ok_of_bind rest _ es e in
    let l = h others read in ground (arith, made)

pub length-bundle :
    (wide : Bool) (mem : List ℕ) (object : Object) (n p ordinal room : ℕ) (es : List Export)
    → bundle_entries wide mem object n p ordinal room ≡ ok es
    → length es ≡ n
unfolding bundle_entries
length-bundle wide mem object zero p ordinal room es e = ground arith
length-bundle wide mem object (suc n) p ordinal room es e =
    let (offset, read, rest) = ok_of_bind (load_offset wide mem (p + 1)) _ es e in
    length-put_export room ordinal offset n object _ es
      (length-bundle wide mem object n (p + (if wide then 5 else 3)) (ordinal + 1) (room - 1)) rest

-- What the second pass makes has the number that was counted.
abbrev pub Filled : ℕ → Outcome (Option (List Export)) → Type 0
Filled total (ok (some exports)) = length exports ≡ total
Filled total (ok none) = Unit
Filled total crash = Unit
Filled total halt = Unit
Filled total stuck = Unit

and_then-Filled :
    (n m : ℕ) (exports : Outcome (List Export)) (rest : Outcome (Option (List Export)))
    → ((es : List Export) → exports ≡ ok es → length es ≡ n)
    → Filled m rest
    → Filled (n + m) (and_then exports rest)
and_then-Filled n m (ok first) (ok (some later)) h f =
    omega (arith, length-append first later, h first refl, f)
and_then-Filled n m (ok first) (ok none) h f = tt
and_then-Filled n m (ok first) crash h f = tt
and_then-Filled n m (ok first) halt h f = tt
and_then-Filled n m (ok first) stuck h f = tt
and_then-Filled n m crash rest h f = tt
and_then-Filled n m halt rest h f = tt
and_then-Filled n m stuck rest h f = tt

module _ (mem : List ℕ) (objects : List Object) where
  object_entries_room :
      (wide : Bool) (n p ordinal room room' : ℕ)
      → n ≤ room
      → n ≤ room'
      → object_entries mem objects wide n p ordinal room
        ≡ object_entries mem objects wide n p ordinal room'
  unfolding object_entries
  object_entries_room wide n p ordinal room room' h k = bind_cong (load16 mem p) _ _ λ number.
      bind_cong (object_at objects _) _ _
        λ object. bundle_room wide mem object n (p + 2) ordinal room room' h k

  length-object_entries :
      (wide : Bool) (n p ordinal room : ℕ) (es : List Export)
      → object_entries mem objects wide n p ordinal room ≡ ok es
      → length es ≡ n
  unfolding object_entries
  length-object_entries wide n p ordinal room es e =
      let (number, read, rest) = ok_of_bind (load16 mem p) _ es e in
      let (object, found, rest') = ok_of_bind (object_at objects _) _ es rest in
      length-bundle wide mem object n (p + 2) ordinal room es rest'

  -- The rest of the table fits into a room, and more room makes no difference.
  Fits : ℕ → ℕ → ℕ → Next → ℕ → Type 0
  Fits room extra q next ordinal =
      (next q ordinal (room + extra) ≡ next q ordinal room) × Filled room (next q ordinal room)

  entries-Fits :
      (wide : Bool) (n p ordinal room extra : ℕ) (next : Next)
      → n ≤ room
      → Fits (room - n) extra (p + (2 + (if wide then 5 else 3) * n)) next (ordinal + n)
      → Fits room extra p (load_bundle mem objects (entries wide) n next) ordinal
  unfolding load_bundle Fits
  entries-Fits wide n p ordinal room extra next h (same, filled) =
      let left : room + extra - n ≡ room - n + extra = omega arith in
      let own = object_entries_room wide n p ordinal (room + extra) room (omega arith) h in
      let sum : n + (room - n) ≡ room = omega arith in
      (
        rw (own, left, same) refl,
        subst (λ (t : ℕ). Filled t (load_bundle mem objects (entries wide) n next p ordinal room))
            sum
            (and_then-Filled n (room - n) _ _ (length-object_entries wide n p ordinal room) filled),
      )

  bundle-Fits :
      (type n p ordinal room extra : ℕ) (next : Next)
      → (if type == 0 then 0 else n) ≤ room
      → Fits
          (room - (if type == 0 then 0 else n))
          extra
          (p + (if type == 0 then 0 else 2 + (if type == 1 then 3 else 5) * n))
          next
          (ordinal + n)
      → Fits room extra p (load_bundle mem objects (kind_of type) n next) ordinal
  unfolding kind_of
  bundle-Fits type n p ordinal room extra next h f = elim (Bool-cases (type == 0)) [
    | inl gap ↦
        let here : p + 0 ≡ p = omega arith in
        let all : room - 0 ≡ room = omega arith in
        rw gap (unfold Fits load_bundle in (rw (gap, here, all) at f))
    | inr full ↦ elim (Bool-cases (type == 1)) [
      | inl word ↦
          rw (full, word)
            (entries-Fits false n p ordinal room extra next (rw full at h) (rw (full, word) at f))
      | inr not_word ↦ elim (Bool-cases (type == 3)) [
        | inl dword ↦
            rw (full, not_word, dword)
              (entries-Fits true n p ordinal room extra next (rw full at h)
                (rw (full, not_word) at f))
        | inr bad ↦ rw (full, not_word, bad) (unfold Fits load_bundle in (refl, tt))
      ]
    ]
  ]

  pub load_step :
      (fuel p ordinal room n type : ℕ)
      → load8 mem p ≡ ok n
      → (n == 0) ≡ false
      → load8 mem (p + 1) ≡ ok type
      → load_exports mem objects (suc fuel) p ordinal room
        ≡ load_bundle mem objects
            (kind_of (bundle_type type))
            n
            (load_exports mem objects fuel)
            (p + 2)
            ordinal
            room
  unfolding load_exports
  load_step fuel p ordinal room n type read more read' = rw (read, more, read') refl

  pub load_end :
      (fuel p ordinal room : ℕ)
      → load8 mem p ≡ ok 0
      → load_exports mem objects (suc fuel) p ordinal room ≡ ok (some [])
  unfolding load_exports
  load_end fuel p ordinal room read = rw read refl

  load_exports-Fits :
      (fuel p acc ordinal room extra : ℕ)
      → count_exports fuel mem p acc ≡ ok (acc + room)
      → Fits room extra p (load_exports mem objects fuel) ordinal
  unfolding Fits
  load_exports-Fits zero p acc ordinal room extra e = unfold count_bundles in cc e
  load_exports-Fits (suc fuel) p acc ordinal room extra e =
      elim (count_bundles-CountEnds bundle_size bundle_count mem fuel p acc (acc + room) e) [
        | at_end read same ↦
            rw (load_end fuel p ordinal room read, load_end fuel p ordinal (room + extra) read)
              (refl, omega arith)
        | over n type read more read' further ↦
            let kind = bundle_type type in
            let taken : ℕ = if kind == 0 then 0 else n in
            let low =
              count_le bundle_size bundle_count mem fuel _ (acc + taken) (acc + room) further in
            let split : acc + room ≡ acc + taken + (room - taken) = omega (arith, low) in
            let next =
              load_exports-Fits fuel (p + 2 + bundle_size type n) (acc + taken) (ordinal + n)
                (room - taken) extra (rw split at further) in
            let step = λ (r : ℕ). load_step fuel p ordinal r n type read more read' in
            let fits =
              bundle-Fits kind n (p + 2) ordinal room extra (load_exports mem objects fuel)
                (omega (arith, low)) next in
            rw (step (room + extra), step room) fits
      ]

-- Whatever bytes the first pass counts, the second one, over the same table, never needs more room
-- than was counted: with more it would end the same way. Where it ends with exports, these are as
-- many as were counted.
pub load_exports-count_exports :
    (mem : List ℕ) (objects : List Object) (fuel p ordinal total extra : ℕ)
    → count_exports fuel mem p 0 ≡ ok total
    → (load_exports mem objects fuel p ordinal (total + extra)
        ≡ load_exports mem objects fuel p ordinal total)
      × Filled total (load_exports mem objects fuel p ordinal total)
unfolding Fits
load_exports-count_exports mem objects fuel p ordinal total extra e =
    let same : 0 + total ≡ total = omega arith in
    load_exports-Fits mem objects fuel p 0 ordinal total extra (rw same e)
