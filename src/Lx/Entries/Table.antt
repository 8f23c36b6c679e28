-- ===== src/Lx/Entries/Table.antt =====
-- lx_loader.c: entry tables of LX modules as data, their bytes, and what is read from them.
use mathlib.Core.List.{append_assoc}
use ine_debugger.Lx.Entries.{object_at, put_export, load_offset, bundle_entries, object_entries}
use ine_debugger.Lx.Fixup.Records.{offset_bytes}
use ine_debugger.Lx.{Export, Object}
use ine_debugger.Prelude.{
  ℕ, zero, suc, ◌+◌, ◌-◌, ◌*◌, ◌^◌, ◌≤◌, ◌<◌, ◌≡◌, refl, sym, ap, ◌∙◌, arith,
}
use ine_debugger.Prelude.{Bool, true, false, none, some, List, [], ◌∷◌, ◌++◌, length, All, drop}
use ine_debugger.Prelude.{if◌then◌else◌, get_elem?}
use ine_debugger.Prelude.Word.{add32, u16}
use ine_debugger.Prelude.Memory.{Outcome, ok, le16}
use ine_debugger.Prelude.Memory.Reads.{load8_at, load16_at, load32_at}

-- Ordinals without an entry; and entries for one object, with the number that the table has for it,
-- each a byte of flags and an offset of 32 or of 16 bits.
pub data Bundle : Type 0 where
  gap : ℕ → Bundle
  bundle : Bool → ℕ → Object → List (ℕ × ℕ) → Bundle

abbrev pub entry_bytes : Bool → List (ℕ × ℕ) → List ℕ
entry_bytes wide [] = []
entry_bytes wide ((flags, offset) ∷ es) = flags ∷ (offset_bytes wide offset ++ entry_bytes wide es)

-- The bytes of a table: each bundle behind the one before, and a 0.
abbrev pub table_bytes : List Bundle → List ℕ
table_bytes [] = 0 ∷ []
table_bytes (gap n ∷ bs) = n ∷ 0 ∷ table_bytes bs
table_bytes (bundle wide number object es ∷ bs) =
    length es ∷ (if wide then 3 else 1) ∷ (le16 number ++ (entry_bytes wide es ++ table_bytes bs))

abbrev pub entry_exports : Object → ℕ → List (ℕ × ℕ) → List Export
entry_exports object ordinal [] = []
entry_exports object ordinal ((flags, offset) ∷ es) =
    record { ordinal = ordinal; name = none; addr = add32 object.addr offset; object = some object }
    ∷ entry_exports object (ordinal + 1) es

-- What the table means, from an ordinal on.
abbrev pub table_exports : ℕ → List Bundle → List Export
table_exports ordinal [] = []
table_exports ordinal (gap n ∷ bs) = table_exports (ordinal + n) bs
table_exports ordinal (bundle wide number object es ∷ bs) =
    entry_exports object ordinal es ++ table_exports (ordinal + length es) bs

abbrev pub table_size : List Bundle → ℕ
table_size [] = 0
table_size (gap n ∷ bs) = table_size bs
table_size (bundle wide number object es ∷ bs) = length es + table_size bs

-- Bundles are not empty, the number of an object counts from 1, and the module has the object there.
abbrev pub Written : List Object → Bundle → Type 0
Written objects (gap n) = 0 < n
Written objects (bundle wide number object es) =
    (0 < length es)
    × (1 ≤ number)
    × (number < 2 ^ 16)
    × (get_elem? objects (number - 1) ≡ some object)
    × All (λ e. e.1 < 2 ^ 32) es

stride :
    (wide : Bool) (n p : ℕ)
    → p + 1 + (if wide then 4 else 2) + (if wide then 5 else 3) * n
      ≡ p + (if wide then 5 else 3) * suc n
stride true n p = omega arith
stride false n p = omega arith

load_offset_at :
    (wide : Bool) (mem : List ℕ) (p v : ℕ) (rest : List ℕ)
    → v < 2 ^ 32
    → drop p mem ≡ offset_bytes wide v ++ rest
    → (load_offset wide mem p ≡ ok v) × (drop (p + (if wide then 4 else 2)) mem ≡ rest)
load_offset_at true mem p v rest h e = load32_at mem p v rest h e
load_offset_at false mem p v rest h e = load16_at mem p v rest e

put_export_ok :
    (room ordinal offset : ℕ) (object : Object) (rest : Outcome (List Export)) (es : List Export)
    → 1 ≤ room
    → rest ≡ ok es
    → put_export room ordinal object offset rest
      ≡ ok (
          record {
            ordinal = ordinal;
            name = none;
            addr = add32 object.addr offset;
            object = some object;
          }
          ∷ es)
put_export_ok zero ordinal offset object rest es h e = absurd (omega arith)
put_export_ok (suc room) ordinal offset object rest es h e = rw e refl

entry_step : (wide : Bool) (p : ℕ) → p + 1 + (if wide then 4 else 2) ≡ p + (if wide then 5 else 3)
entry_step true p = omega arith
entry_step false p = omega arith

bundle_entries_at :
    (wide : Bool) (mem : List ℕ) (object : Object) (es : List (ℕ × ℕ)) (rest : List ℕ)
    (p ordinal room : ℕ)
    → All (λ e. e.1 < 2 ^ 32) es
    → length es ≤ room
    → drop p mem ≡ entry_bytes wide es ++ rest
    → (bundle_entries wide mem object (length es) p ordinal room
        ≡ ok (entry_exports object ordinal es))
      × (drop (p + (if wide then 5 else 3) * length es) mem ≡ rest)
unfolding bundle_entries
bundle_entries_at wide mem object [] rest p ordinal room sizes h e =
    let same : p + (if wide then 5 else 3) * 0 ≡ p = omega arith in (refl, rw same e)
bundle_entries_at wide mem object ((flags, offset) ∷ es) rest p ordinal room (size, sizes) h e =
    let (_, d0) = load8_at mem p _ _ e in
    let apart = append_assoc (offset_bytes wide offset) (entry_bytes wide es) rest in
    let (read, d1) =
      load_offset_at wide mem (p + 1) offset (entry_bytes wide es ++ rest) size (rw (← apart) d0) in
    let (others, d2) =
      bundle_entries_at wide mem object es rest (p + (if wide then 5 else 3)) (ordinal + 1)
        (room - 1) sizes (omega arith) (rw (← entry_step wide p) d1) in
    let behind =
      ap (λ (t : ℕ). t + (if wide then 5 else 3) * length es) (sym (entry_step wide p))
      ∙ stride wide (length es) p in
    (rw read (put_export_ok room ordinal offset object _ _ (omega arith) others), rw (← behind) d2)

-- The number that a bundle has for its object, from 0 on, in 16 bits.
number_from_0 : (number : ℕ) → 1 ≤ number → number < 2 ^ 16 → u16 (number + 2 ^ 16 - 1) ≡ number - 1
number_from_0 number low high = omega arith

object_at_ok :
    (objects : List Object) (i : ℕ) (object : Object)
    → get_elem? objects i ≡ some object
    → object_at objects i ≡ ok object
object_at_ok objects i object e = rw (e, object_at) refl

pub object_entries_at :
    (wide : Bool) (mem : List ℕ) (objects : List Object) (number : ℕ) (object : Object)
    (es : List (ℕ × ℕ)) (rest : List ℕ) (p ordinal room : ℕ)
    → Written objects (bundle wide number object es)
    → length es ≤ room
    → drop p mem ≡ le16 number ++ (entry_bytes wide es ++ rest)
    → (object_entries mem objects wide (length es) p ordinal room
        ≡ ok (entry_exports object ordinal es))
      × (drop (p + (2 + (if wide then 5 else 3) * length es)) mem ≡ rest)
unfolding object_entries
object_entries_at wide mem objects number object es rest p ordinal room
      (some_entry, low, high, is_there, sizes) h e =
    let (read, d0) = load16_at mem p number _ e in
    let (made, d1) = bundle_entries_at wide mem object es rest (p + 2) ordinal room sizes h d0 in
    let found = object_at_ok objects (number - 1) object is_there in
    let behind : p + 2 + (if wide then 5 else 3) * length es
        ≡ p + (2 + (if wide then 5 else 3) * length es) =
      omega arith in
    (rw read (rw (number_from_0 number low high) (rw found made)), rw (← behind) d1)
