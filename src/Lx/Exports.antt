-- ===== src/Lx/Exports.antt =====
-- lx_loader.c: lookups of exports (getModuleProcAddrByOrdinal, getModuleProcAddrByName) and the
-- names of exports (loadLxNameTable). Names are byte lists without the final 0.
mod Runs
pub mod Laws
use ine_debugger.Prelude.{
  ℕ, zero, suc, ◌+◌, ◌*◌, Bool, true, false, ◌&&◌, Option, none, some, List, [], ◌∷◌,
}
use ine_debugger.Prelude.{◌==◌, if◌then◌else◌, take, drop, length, ltb}
use ine_debugger.Prelude.Memory.{Outcome, ok, crash, halt, stuck, ◌>>=◌, load8, load16}
use ine_debugger.Lx.{Export, Object, no_alias}

-- `strcmp(a, b) == 0`; a NULL crashes.
unfoldable pub same_string : List ℕ → List ℕ → Bool
same_string [] [] = true
same_string [] (b ∷ bs) = false
same_string (a ∷ as') [] = false
same_string (a ∷ as') (b ∷ bs) = a == b && same_string as' bs

-- `lxexp->object && lxexp->object->alias != 0xFFFF`
abbrev pub bridged : Export → Bool
bridged export = elim export.object [
  | none ↦ false
  | some object ↦ if object.alias == no_alias then false else true
]

-- `deref` reads a pointer out of mapped memory, where it can.
module _ (deref : ℕ → Outcome ℕ) where
  -- The address that is answered of an export: of a bridge, what is stored there.
  abbrev pub address : Bool → Export → Outcome ℕ
  address native export = if native && bridged export then deref export.addr else ok export.addr

  -- The address and the export, where one has the ordinal.
  unfoldable pub get_module_proc_addr_by_ordinal :
      List Export → ℕ → Bool → Outcome (Option (ℕ × Export))
  get_module_proc_addr_by_ordinal [] ordinal native = ok none
  get_module_proc_addr_by_ordinal (export ∷ exports) ordinal native =
      let further = get_module_proc_addr_by_ordinal exports ordinal native in
      if export.ordinal == ordinal
      then (address native export >>= λ retval. ok (some (retval, export)))
      else further

  unfoldable pub get_module_proc_addr_by_name : List Export → List ℕ → Outcome (Option (ℕ × Export))
  unfolding same_string
  get_module_proc_addr_by_name [] name = ok none
  get_module_proc_addr_by_name (export ∷ exports) name =
      let further = get_module_proc_addr_by_name exports name in
      elim export.name [
        | none ↦ crash
        | some given ↦
            if same_string given name
            then (address true export >>= λ retval. ok (some (retval, export)))
            else further
      ]

-- What a lookup gives its caller: a miss makes a trampoline, with or without an export.
abbrev pub or_missing :
    Outcome (ℕ × Option Export) → Option (ℕ × Export) → Outcome (ℕ × Option Export)
or_missing trampoline none = trampoline
or_missing trampoline (some found) = ok (found.0, some found.1)

-- The inner loop: the first export with the ordinal gets the name.
unfoldable pub name_export : ℕ → List ℕ → List Export → List Export
name_export ordinal name [] = []
name_export ordinal name (export ∷ exports) =
    let further = name_export ordinal name exports in
    if export.ordinal == ordinal
    then record export { name = some name } ∷ exports
    else export ∷ further

-- A C string ends at its first 0.
unfoldable pub c_string : List ℕ → List ℕ
c_string [] = []
c_string (b ∷ bs) = let further = c_string bs in if b == 0 then [] else b ∷ further

-- The loop over the table, on fuel; malloc always succeeds.
unfoldable pub load_lx_name_table : ℕ → List ℕ → ℕ → List Export → Outcome (List Export)
unfolding name_export c_string
load_lx_name_table zero exe p exports = stuck
load_lx_name_table (suc fuel) exe p exports = do
  namelen ← load8 exe p
  elim (namelen == 0) [
    | true ↦ ok exports
    | false ↦ load16 exe (p + 1 + namelen) >>= λ ordinal.
        load_lx_name_table fuel exe (p + 1 + namelen + 2) (
          if ordinal == 0
          then exports
          else name_export ordinal (c_string (take namelen (drop (p + 1) exe))) exports)
  ]
