-- ===== src/Lx/Entries/Passes.antt =====
-- lx_loader.c: the two passes over the entry table of an LX module make what the table means.
use mathlib.Core.List.{append_assoc}
use ine_debugger.Lx.Entries.{
  and_then, bundle_type, entries, kind_of, bundle_size, bundle_count, count_exports, Next,
  load_bundle, load_exports, set_up_exports,
}
use ine_debugger.Lx.Entries.Room.{load_step, load_end}
use ine_debugger.Lx.Entries.Table.{
  Bundle, gap, bundle, entry_bytes, table_bytes, entry_exports, table_exports, table_size, Written,
  object_entries_at,
}
use ine_debugger.Lx.Bundles.{count_end, counted_step}
use ine_debugger.Lx.{Export, Object}
use ine_debugger.Prelude.{ℕ, zero, suc, ◌+◌, ◌-◌, ◌*◌, ◌≤◌, ◌<◌, ◌≡◌, refl, ◌∙◌, arith}
use ine_debugger.Prelude.{Bool, true, false, Option, some, List, [], ◌∷◌, ◌++◌, length, All, drop}
use ine_debugger.Prelude.{◌==◌, if◌then◌else◌}
use ine_debugger.Prelude.Memory.{Outcome, ok, le16}
use ine_debugger.Prelude.Memory.Reads.{load8_at}

-- What both passes make of a table.
record Passes (mem : List ℕ) (objects : List Object) (bs : List Bundle)
    (fuel p acc ordinal room : ℕ) : Type 0 where
  counted : count_exports fuel mem p acc ≡ ok (acc + table_size bs)
  loaded : load_exports mem objects fuel p ordinal room ≡ ok (some (table_exports ordinal bs))

and_then_ok :
    (exports : Outcome (List Export)) (rest : Outcome (Option (List Export))) (es fs : List Export)
    → exports ≡ ok es
    → rest ≡ ok (some fs)
    → and_then exports rest ≡ ok (some (es ++ fs))
and_then_ok exports rest es fs e f = rw (e, f) refl

entries_load :
    (wide : Bool) (mem : List ℕ) (objects : List Object) (number : ℕ) (object : Object)
    (es : List (ℕ × ℕ)) (bs : List Bundle) (rest : List ℕ) (fuel p ordinal room : ℕ)
    → Written objects (bundle wide number object es)
    → length es ≤ room
    → drop p mem ≡ le16 number ++ (entry_bytes wide es ++ rest)
    → load_exports mem objects fuel
        (p + (2 + (if wide then 5 else 3) * length es))
        (ordinal + length es)
        (room - length es)
      ≡ ok (some (table_exports (ordinal + length es) bs))
    → load_bundle mem objects
        (entries wide)
        (length es)
        (load_exports mem objects fuel)
        p
        ordinal
        room
      ≡ ok (some (table_exports ordinal (bundle wide number object es ∷ bs)))
unfolding load_bundle
entries_load wide mem objects number object es bs rest fuel p ordinal room w h d next =
    let (made, _) = object_entries_at wide mem objects number object es rest p ordinal room w h d in
    and_then_ok _ _ (entry_exports object ordinal es) (table_exports (ordinal + length es) bs) made
      next

-- The type of a bundle is stored as its kind.
type_of : (wide : Bool) → kind_of (bundle_type (if wide then 3 else 1)) ≡ entries wide
unfolding kind_of
type_of true = refl
type_of false = refl

type_size :
    (wide : Bool) (n p : ℕ)
    → p + bundle_size (if wide then 3 else 1) n ≡ p + (2 + (if wide then 5 else 3) * n)
type_size true n p = refl
type_size false n p = refl

not_gap : (wide : Bool) (n : ℕ) → bundle_count (if wide then 3 else 1) n ≡ n
not_gap true n = refl
not_gap false n = refl

gap_load :
    (mem : List ℕ) (objects : List Object) (n : ℕ) (next : Next) (p ordinal room : ℕ)
    → load_bundle mem objects (kind_of (bundle_type 0)) n next p ordinal room
      ≡ next p (ordinal + n) room
unfolding load_bundle kind_of
gap_load mem objects n next p ordinal room = refl

table-Passes :
    (bs : List Bundle) (mem : List ℕ) (objects : List Object) (rest : List ℕ)
    (fuel p acc ordinal room : ℕ)
    → All (Written objects) bs
    → length bs < fuel
    → table_size bs ≤ room
    → drop p mem ≡ table_bytes bs ++ rest
    → Passes mem objects bs fuel p acc ordinal room
table-Passes bs mem objects rest zero p acc ordinal room w enough h d = absurd (omega arith)
table-Passes [] mem objects rest (suc fuel) p acc ordinal room w enough h d =
    let (end, _) = load8_at mem p 0 rest d in
    let same : acc + 0 ≡ acc = omega arith in
    record {
      counted = rw same (count_end bundle_size bundle_count mem fuel p acc end);
      loaded = load_end mem objects fuel p ordinal room end;
    }
table-Passes (gap n ∷ bs) mem objects rest (suc fuel) p acc ordinal room (some_gap, w) enough h d =
    let (head, d0) = load8_at mem p n _ d in
    let (type, d1) = load8_at mem (p + 1) 0 _ d0 in
    let two : p + 1 + 1 ≡ p + 2 = omega arith in
    let none_more : p + 2 + 0 ≡ p + 2 = omega arith in
    let ih =
      table-Passes bs mem objects rest fuel (p + 2) acc (ordinal + n) room w (omega arith) h
        (rw (← two) d1) in
    let same : acc + 0 ≡ acc = omega arith in
    let positive : (n == 0) ≡ false = ground arith in
    record {
      counted =
          counted_step bundle_size bundle_count mem fuel p acc n 0 head some_gap type
          ∙ rw (none_more, same) ih.counted;
      loaded =
          load_step mem objects fuel p ordinal room n 0 head positive type
          ∙ gap_load mem objects n (load_exports mem objects fuel) (p + 2) ordinal room
          ∙ ih.loaded;
    }
table-Passes (bundle wide number object es ∷ bs) mem objects rest (suc fuel) p acc ordinal room
      (w, ws) enough h d =
    let apart = append_assoc (entry_bytes wide es) (table_bytes bs) rest in
    let (head, d0) = load8_at mem p (length es) _ d in
    let (type, d1) = load8_at mem (p + 1) (if wide then 3 else 1) _ d0 in
    let two : p + 1 + 1 ≡ p + 2 = omega arith in
    let bytes : drop (p + 2) mem
        ≡ le16 number ++ (entry_bytes wide es ++ (table_bytes bs ++ rest)) =
      rw (← two, ← apart) d1 in
    let (_, behind) =
      object_entries_at wide mem objects number object es (table_bytes bs ++ rest) (p + 2) ordinal
        room w (omega arith) bytes in
    let q : ℕ = p + 2 + (2 + (if wide then 5 else 3) * length es) in
    let ih =
      table-Passes bs mem objects rest fuel q (acc + length es) (ordinal + length es)
        (room - length es) ws (omega arith) (omega arith) behind in
    let positive : (length es == 0) ≡ false = ground (arith, w.0) in
    let sum : acc + length es + table_size bs ≡ acc + (length es + table_size bs) = omega arith in
    let kind = type_of wide in
    record {
      counted =
          counted_step bundle_size bundle_count mem fuel p acc (length es) (if wide then 3 else 1)
            head w.0 type
          ∙ rw (type_size wide (length es) (p + 2), not_gap wide (length es), ← sum) ih.counted;
      loaded =
          load_step mem objects fuel p ordinal room (length es) (if wide then 3 else 1) head
            positive type
          ∙ rw kind (
              entries_load wide mem objects number object es bs (table_bytes bs ++ rest) fuel
                (p + 2) ordinal room w (omega arith) bytes ih.loaded);
    }

-- Where a table written from bundles stands in memory, and there is fuel for each of them and for the
-- end, the two passes make exactly the exports that the bundles mean: with the ordinals counted from
-- 1, over the gaps, and the addresses in the objects that they name. No bundle is empty, and the
-- module has the objects.
pub set_up_exports-table_bytes :
    (bs : List Bundle) (mem : List ℕ) (objects : List Object) (rest : List ℕ) (fuel p : ℕ)
    → All (Written objects) bs
    → length bs < fuel
    → drop p mem ≡ table_bytes bs ++ rest
    → set_up_exports mem objects fuel p ≡ ok (some (table_exports 1 bs))
unfolding set_up_exports
set_up_exports-table_bytes bs mem objects rest fuel p w enough d =
    let passes =
      table-Passes bs mem objects rest fuel p 0 1 (0 + table_size bs) w enough (omega arith) d in
    rw passes.counted passes.loaded
