-- ===== src/Lx/Entries.antt =====
-- lx_loader.c: the entry tables of LX modules, from which the exports are made (the part of
-- loadLxModule under "Set up our exports"). A first pass counts the entries, and
-- an array of so many is allocated; a second pass fills it. The counts stay far below 2 ^ 32, since
-- each entry takes at least three bytes of the file or is one of 255 of a bundle of two bytes.
pub mod Room
pub mod Table
pub mod Passes
mod Runs
use ine_debugger.Prelude.{
  ℕ, zero, suc, ◌+◌, ◌-◌, ◌*◌, ◌^◌, Bool, Option, none, some, List, [], ◌∷◌, ◌++◌,
}
use ine_debugger.Prelude.{◌==◌, if◌then◌else◌, get_elem?, bit_and, true, false}
use ine_debugger.Prelude.Word.{add32, u8, u16}
use ine_debugger.Prelude.Memory.{Outcome, ok, crash, stuck, ◌>>=◌, load8, load16, load32}
use ine_debugger.Lx.Bundles.{count_bundles}
use ine_debugger.Lx.{Export, Object}

-- `&retval->mmaps[objidx]`, read at once.
abbrev pub object_at : List Object → ℕ → Outcome Object
object_at objects i = elim (get_elem? objects i) [ none ↦ crash | some object ↦ ok object ]

-- An entry written to the array, and those behind it; `room` is what the array has left.
abbrev pub put_export : ℕ → ℕ → Object → ℕ → Outcome (List Export) → Outcome (List Export)
put_export zero ordinal object offset rest = crash
put_export (suc room) ordinal object offset rest = do
  exports ← rest
  ok (
      record {
        ordinal = ordinal;
        name = none;
        addr = add32 object.addr offset;
        object = some object;
      }
      ∷ exports)

-- The offset of an entry, of 16 or of 32 bits.
abbrev pub load_offset : Bool → List ℕ → ℕ → Outcome ℕ
load_offset wide mem p = if wide then load32 mem p else load16 mem p

-- The loop over the `n` entries of a bundle for one object: a byte of flags and an offset each.
unfoldable pub bundle_entries : Bool → List ℕ → Object → ℕ → ℕ → ℕ → ℕ → Outcome (List Export)
bundle_entries wide mem object zero p ordinal room = ok []
bundle_entries wide mem object (suc n) p ordinal room = do
  offset ← load_offset wide mem (p + 1)
  put_export room ordinal object offset
      (bundle_entries wide mem object n (p + (if wide then 5 else 3)) (ordinal + 1) (room - 1))

-- Behind a bundle with so many entries: what the rest of the table gives, if it can be read.
abbrev pub and_then :
    Outcome (List Export) → Outcome (Option (List Export)) → Outcome (Option (List Export))
and_then exports rest = do
  first ← exports
  later ← rest
  ok (elim later [ none ↦ none | some others ↦ some (first ++ others) ])

-- `*(entryptr++) & ~0x80`
abbrev pub bundle_type : ℕ → ℕ
bundle_type b = bit_and b 0x7f

-- The kinds of bundles: without entries; with entries of 16 or 32 bits; and those that make the load
-- fail.
pub data Kind : Type 0 where
  unused : Kind
  entries : Bool → Kind
  refused : Kind

unfoldable pub kind_of : ℕ → Kind
kind_of type =
    if type == 0
    then unused
    else (if type == 1 then entries false else (if type == 3 then entries true else refused))

-- The bytes behind a bundle's head, as the first pass takes them, and what it counts.
abbrev pub bundle_size : ℕ → ℕ → ℕ
bundle_size b n = if bundle_type b == 0 then 0 else 2 + (if bundle_type b == 1 then 3 else 5) * n

abbrev pub bundle_count : ℕ → ℕ → ℕ
bundle_count b n = if bundle_type b == 0 then 0 else n

-- The first pass of loadLxModule.
abbrev pub count_exports : ℕ → List ℕ → ℕ → ℕ → Outcome ℕ
count_exports fuel mem p total = count_bundles bundle_size bundle_count mem fuel p total

-- How the second pass goes on: place, ordinal, room.
abbrev pub Next : Type 0
Next = ℕ → ℕ → ℕ → Outcome (Option (List Export))

module _ (mem : List ℕ) (objects : List Object) where
  -- The entries of a bundle that names its object.
  unfoldable pub object_entries : Bool → ℕ → ℕ → ℕ → ℕ → Outcome (List Export)
  object_entries wide n p ordinal room = do
    number ← load16 mem p
    object ← object_at objects (u16 (number + 2 ^ 16 - 1))
    bundle_entries wide mem object n (p + 2) ordinal room

  -- The switch over the kind, with place `p` behind the head.
  unfoldable pub load_bundle : Kind → ℕ → Next → Next
  load_bundle unused n next p ordinal room = next p (ordinal + n) room
  load_bundle (entries wide) n next p ordinal room =
      and_then (object_entries wide n p ordinal room)
        (next (p + (2 + (if wide then 5 else 3) * n)) (ordinal + n) (room - n))
  load_bundle refused n next p ordinal room = ok none

  -- The second pass: the exports, or none where the load fails.
  unfoldable pub load_exports : ℕ → Next
  load_exports zero p ordinal room = stuck
  load_exports (suc fuel) p ordinal room = do
    numentries ← load8 mem p
    let rest = do
      type ← load8 mem (p + 1)
      load_bundle (kind_of (bundle_type type)) numentries (load_exports fuel) (p + 2) ordinal room
    if numentries == 0 then ok (some []) else rest

  -- Both passes; ordinals begin with 1.
  unfoldable pub set_up_exports : ℕ → ℕ → Outcome (Option (List Export))
  set_up_exports fuel p = do total ← count_exports fuel mem p 0; load_exports fuel p 1 total
