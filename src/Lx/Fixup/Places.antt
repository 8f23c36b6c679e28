-- ===== src/Lx/Fixup/Places.antt =====
-- lx_loader.c, fixupPage: where the target of a record lies, and what each kind of source stores of it.
use ine_debugger.Prelude.{ℕ, ◌-◌, ◌*◌, ◌^◌, ◌≡◌, refl, arith, inl, inr}
use ine_debugger.Prelude.{
  Bool, true, false, not, Option, none, some, get_elem?, Bool-cases, Option-cases,
}
use ine_debugger.Prelude.{◌==◌, if◌then◌else◌, bit_or}
use ine_debugger.Prelude.Memory.{Outcome, ok, crash, halt, ◌>>=◌}
use ine_debugger.Prelude.Word.{u32, add32, sub32}
use ine_debugger.Selectors.{selector_to_segment}
use ine_debugger.Lx.{Object, Export, no_alias}
use ine_debugger.Lx.Fixup.{Module, import_value, internal_value, alias_value}

-- A flat address, or a segment and the place in it.
pub data Place : Type 0 where
  flat : ℕ → Place
  far : ℕ → ℕ → Place

-- The two values of a source: of a flat address itself; of a far one the offset and the segment
-- (16:32), the two halves of a word (16:16), or the segment alone.
abbrev pub stored : ℕ → ℕ → Place → Outcome (ℕ × ℕ)
stored kind second (flat address) = ok (address, second)
stored kind second (far segment offset) =
    if kind == 6
    then ok (offset, segment)
    else (if kind == 3
        then ok (bit_or (u32 (segment * 2 ^ 16)) offset, second)
        else (if kind == 2 then ok (segment, second) else halt))

-- The selector under which 16-bit code reaches an object, where it has one.
abbrev pub segment_of : Object → Option ℕ
segment_of object =
    if object.alias == no_alias then none else some (selector_to_segment object.alias)

-- An imported address is far where the alias is wanted, the export has an object, and the object
-- has an alias; its place is the distance from the start of the object.
abbrev pub object_place : ℕ → Object → Option ℕ → Place
object_place address object none = flat address
object_place address object (some segment) = far segment (sub32 address object.addr)

abbrev pub import_place : Bool → ℕ → Option Export → Place
import_place false address export = flat address
import_place true address none = flat address
import_place true address (some export) = elim export.object [
  | none ↦ flat address
  | some object ↦ object_place address object (segment_of object)
]

-- An offset in an object of the module itself; 0 where the alias is wanted and there is none.
abbrev pub own_place : Object → ℕ → Bool → Option ℕ → Place
own_place object offset false segment = flat (add32 object.addr offset)
own_place object offset true none = flat 0
own_place object offset true (some segment) = far segment offset

abbrev pub internal_place : Module → Bool → ℕ → ℕ → Outcome Place
internal_place m alias id offset = if id == 0 then crash else elim (get_elem? m.mmaps (id - 1)) [
  | none ↦ crash
  | some object ↦ ok (own_place object offset alias (segment_of object))
]

alias_value-stored :
    (kind segment offset second : ℕ)
    → alias_value kind segment offset second ≡ stored kind second (far segment offset)
unfolding alias_value
alias_value-stored kind segment offset second = ground arith

object_value-stored :
    (kind address second : ℕ) (object : Object)
    → (if object.alias == no_alias
        then ok (address, second)
        else alias_value kind (selector_to_segment object.alias) (sub32 address object.addr) second)
      ≡ stored kind second (object_place address object (segment_of object))
object_value-stored kind address second object = elim (Bool-cases (object.alias == no_alias)) [
  | inl nothing ↦ rw nothing refl
  | inr bridged ↦ rw bridged (alias_value-stored kind _ _ second)
]

pub import_value-stored :
    (kind address second : ℕ) (alias : Bool) (export : Option Export)
    → import_value kind alias address export second
      ≡ stored kind second (import_place alias address export)
unfolding import_value
import_value-stored kind address second false export = refl
import_value-stored kind address second true none = refl
import_value-stored kind address second true (some export) = elim (Option-cases export.object) [
  | inl nothing ↦ rw nothing refl
  | inr (object, e) ↦ rw e (object_value-stored kind address second object)
]

own_value-stored :
    (kind offset second : ℕ) (alias : Bool) (object : Object)
    → (if not alias
        then ok (add32 object.addr offset, second)
        else (if object.alias == no_alias
            then ok (0, second)
            else alias_value kind (selector_to_segment object.alias) offset second))
      ≡ stored kind second (own_place object offset alias (segment_of object))
own_value-stored kind offset second false object = refl
own_value-stored kind offset second true object = elim (Bool-cases (object.alias == no_alias)) [
  | inl nothing ↦ rw nothing refl
  | inr bridged ↦ rw bridged (alias_value-stored kind _ _ second)
]

pub internal_value-stored :
    (m : Module) (kind id offset second : ℕ) (alias : Bool)
    → internal_value m kind alias id offset second
      ≡ (internal_place m alias id offset >>= stored kind second)
unfolding internal_value
internal_value-stored m kind id offset second alias = elim (Bool-cases (id == 0)) [
  | inl none_there ↦ rw none_there refl
  | inr numbered ↦ elim (Option-cases (get_elem? m.mmaps (id - 1))) [
    | inl past ↦ rw (numbered, past) refl
    | inr (object, e) ↦ rw (numbered, e) (own_value-stored kind offset second alias object)
  ]
]
