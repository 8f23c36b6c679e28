-- ===== src/Lx/NeEntries.antt =====
-- lx_loader.c: the entry tables of NE modules (the part of loadNeModule under "Set up our exports"),
-- in two passes as those of LX modules.
pub mod Room
mod Runs
use ine_debugger.Lx.Entries.{object_at, put_export, bundle_entries}
use ine_debugger.Prelude.{ℕ, zero, suc, ◌+◌, ◌-◌, ◌*◌, ◌^◌, Option, some, List, [], ◌++◌}
use ine_debugger.Prelude.{◌==◌, if◌then◌else◌, false}
use ine_debugger.Prelude.Word.{u8}
use ine_debugger.Prelude.Memory.{Outcome, ok, stuck, ◌>>=◌, load8, load16}
use ine_debugger.Lx.Bundles.{count_bundles}
use ine_debugger.Lx.{Export, Object}

-- The bytes behind a bundle's head.
abbrev pub bundle_size : ℕ → ℕ → ℕ
bundle_size type n = if type == 0 then 0 else (if type == 0xff then 6 else 3) * n

-- The first pass, which counts the ordinals of unused bundles too.
abbrev pub count_exports : ℕ → List ℕ → ℕ → ℕ → Outcome ℕ
count_exports fuel mem p total = count_bundles bundle_size (λ type n. n) mem fuel p total

-- A bundle's kind: without entries, with a segment in each entry, or for the segment of its type.
pub data Kind : Type 0 where
  unused : Kind
  movable : Kind
  fixed : ℕ → Kind

unfoldable pub kind_of : ℕ → Kind
kind_of type = if type == 0 then unused else (if type == 0xff then movable else fixed type)

-- How the second pass goes on: place, ordinal, room.
abbrev pub Next : Type 0
Next = ℕ → ℕ → ℕ → Outcome (List Export)

-- The exports of a bundle and those of the rest.
abbrev pub and_then : Outcome (List Export) → Outcome (List Export) → Outcome (List Export)
and_then exports rest = do first ← exports; later ← rest; ok (first ++ later)

module _ (mem : List ℕ) (objects : List Object) where
  -- The loop over movable entries: flags, an instruction, a segment from 1 on and an offset each.
  unfoldable pub movable_entries : ℕ → Next
  movable_entries zero p ordinal room = ok []
  movable_entries (suc n) p ordinal room = do
    segment ← load8 mem (p + 3)
    offset ← load16 mem (p + 4)
    object ← object_at objects (u8 (segment + 2 ^ 8 - 1))
    put_export room ordinal object offset (movable_entries n (p + 6) (ordinal + 1) (room - 1))

  -- The entries of a bundle for one segment: flags and an offset each.
  unfoldable pub fixed_entries : ℕ → ℕ → Next
  fixed_entries type n p ordinal room = do
    object ← object_at objects (u8 (type + 2 ^ 8 - 1))
    bundle_entries false mem object n p ordinal room

  unfoldable pub load_bundle : Kind → ℕ → Next → Next
  load_bundle unused n next p ordinal room = next p (ordinal + n) room
  load_bundle movable n next p ordinal room =
      and_then (movable_entries n p ordinal room) (next (p + 6 * n) (ordinal + n) (room - n))
  load_bundle (fixed type) n next p ordinal room =
      and_then (fixed_entries type n p ordinal room) (next (p + 3 * n) (ordinal + n) (room - n))

  -- The second pass.
  unfoldable pub load_exports : ℕ → Next
  load_exports zero p ordinal room = stuck
  load_exports (suc fuel) p ordinal room = do
    numentries ← load8 mem p
    let rest = do
      type ← load8 mem (p + 1)
      load_bundle (kind_of type) numentries (load_exports fuel) (p + 2) ordinal room
    if numentries == 0 then ok [] else rest

  -- Both passes, where the header says that there is a table; an empty count ends the first.
  unfoldable pub set_up_exports : ℕ → ℕ → ℕ → Outcome (List Export)
  set_up_exports fuel entry_table_size p = if entry_table_size == 0 then ok [] else (do
    total ← count_exports fuel mem p 0
    if total == 0 then ok [] else load_exports fuel p 1 total)
