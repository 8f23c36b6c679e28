-- ===== src/Lx/Fixup.antt =====
-- lx_loader.c: the fixups of a page of an LX module (fixupPage, doFixup). The page lies at an address
-- of mapped memory; the records are read out of the executable.
pub mod Patch
pub mod Records
pub mod Places
pub mod Sources
pub mod Targets
pub mod Page
mod Runs
use ine_debugger.Prelude.{ℕ, zero, suc, ◌+◌, ◌-◌, ◌*◌, ◌/◌, ◌%◌, ◌^◌, bit_or, bit_and}
use ine_debugger.Prelude.{Bool, true, false, ◌&&◌, ◌||◌, not, Option, none, some, List, [], ◌∷◌}
use ine_debugger.Prelude.{ltb, leb, ◌==◌, if◌then◌else◌, get_elem?, take, drop, length}
use ine_debugger.Prelude.Memory.{
  Outcome, ok, crash, halt, stuck, ◌>>=◌, load8, load16, load32, flag,
}
use ine_debugger.Prelude.Memory.{store8, store16, store32}
use ine_debugger.Prelude.Word.{u16, u32, add32, sub32, ◌<<◌}
use ine_debugger.Selectors.{selector_to_segment}
use ine_debugger.Lx.{Object, Export, no_alias}
use ine_debugger.Lx.Exports.{c_string, or_missing}
use ine_debugger.Lx.Exports.{get_module_proc_addr_by_ordinal, get_module_proc_addr_by_name}

-- What the records need of the module: its mapped objects, the exports of the modules that it imports
-- from, the count of imported modules, where the names of imports start in the executable, and the code selector of the process.
pub record Module : Type 0 where
  pub mmaps : List Object
  pub dependencies : List (List Export)
  pub num_import_mod_entries : ℕ
  pub import_proc_table : ℕ
  pub original_cs : ℕ

-- `(sint16)`, as a 32-bit pattern.
abbrev pub sext16 : ℕ → ℕ
sext16 v = if ltb v 0x8000 then v else 2 ^ 32 - 0x10000 + v

-- doFixup, at an address
unfoldable pub do_fixup : List ℕ → ℕ → ℕ → ℕ → ℕ → Outcome (List ℕ)
unfolding store8 store16 store32
do_fixup mem at finalval finalval2 finalsize =
    if finalsize == 1
    then store8 mem at finalval
    else (if finalsize == 2
        then store16 mem at finalval
        else (if finalsize == 4
            then store32 mem at finalval
            else (if finalsize == 6
                then (store32 mem at finalval >>= λ mem'. store16 mem' (add32 at 4) finalval2)
                else halt)))

-- The first switch, on `srctype & 0xF`.
unfoldable pub size_of : ℕ → ℕ
size_of kind =
    if kind == 0
    then 1
    else (if kind == 2 || kind == 5
        then 2
        else (if kind == 3 || kind == 7 || kind == 8 then 4 else (if kind == 6 then 6 else 0)))

-- A value, the second value of a 16:32 pointer, and the pointer behind what was read.
abbrev pub Target : Type 0
Target = ℕ × ℕ × ℕ

-- The identifiers and offsets of a record: in a byte or a word, or in a word or a doubleword.
unfoldable pub read_id : List ℕ → ℕ → Bool → Outcome (ℕ × ℕ)
read_id exe p wide =
    if wide then (load16 exe p >>= λ v. ok (v, p + 2)) else (load8 exe p >>= λ v. ok (v, p + 1))

unfoldable pub read_offset : List ℕ → ℕ → Bool → Outcome (ℕ × ℕ)
read_offset exe p wide =
    if wide then (load32 exe p >>= λ v. ok (v, p + 4)) else (load16 exe p >>= λ v. ok (v, p + 2))

-- The innermost switch: values from a segment and an offset in its object.
unfoldable pub alias_value : ℕ → ℕ → ℕ → ℕ → Outcome (ℕ × ℕ)
alias_value kind segment offset finalval2 =
    if kind == 2
    then ok (segment, finalval2)
    else (if kind == 3
        then ok (bit_or (u32 (segment << 16)) offset, finalval2)
        else (if kind == 6 then ok (offset, segment) else halt))

-- Case 0: an object of the module itself.
unfoldable pub internal_value : Module → ℕ → Bool → ℕ → ℕ → ℕ → Outcome (ℕ × ℕ)
unfolding alias_value
internal_value m kind alias objectid targetoffset finalval2 =
    if objectid == 0 then crash else elim (get_elem? m.mmaps (objectid - 1)) [
      | none ↦ crash
      | some object ↦
          if not alias
          then ok (add32 object.addr targetoffset, finalval2)
          else (if object.alias == no_alias
              then ok (0, finalval2)
              else alias_value kind (selector_to_segment object.alias) targetoffset finalval2)
    ]

unfoldable pub internal_target : List ℕ → Module → ℕ → ℕ → Bool → ℕ → ℕ → Outcome Target
unfolding read_id read_offset internal_value
internal_target exe m flags kind alias finalval2 p = do
  (objectid, q) ← read_id exe p (flag flags 0x40)
  (targetoffset, r) ← if kind == 2 then ok (0, q) else read_offset exe q (flag flags 0x10)
  (value, value2) ← internal_value m kind alias objectid targetoffset finalval2
  ok (value, value2, r)

-- The value of an import: what a lookup answers, and, where the alias is wanted, its place in it.
unfoldable pub import_value : ℕ → Bool → ℕ → Option Export → ℕ → Outcome (ℕ × ℕ)
unfolding alias_value
import_value kind false finalval export finalval2 = ok (finalval, finalval2)
import_value kind true finalval none finalval2 = ok (finalval, finalval2)
import_value kind true finalval (some export) finalval2 = elim export.object [
  | none ↦ ok (finalval, finalval2)
  | some object ↦
      if object.alias == no_alias
      then ok (finalval, finalval2)
      else alias_value kind (selector_to_segment object.alias) (sub32 finalval object.addr)
          finalval2
]

-- `lxmod->dependencies[moduleid-1]`
abbrev pub dependency : Module → ℕ → Outcome (List Export)
dependency m moduleid = elim (get_elem? m.dependencies (moduleid - 1)) [
  | none ↦ crash
  | some exports ↦ ok exports
]

-- Module 0 and modules beyond the table give 0.
abbrev pub looked_up :
    Module → ℕ → (List Export → Outcome (ℕ × Option Export)) → Outcome (ℕ × Option Export)
looked_up m moduleid look =
    if moduleid == 0 || ltb m.num_import_mod_entries moduleid
    then ok (0, none)
    else (dependency m moduleid >>= look)

-- A name of the import table, whose top length bit is reserved.
unfoldable pub import_name : List ℕ → ℕ → Outcome (List ℕ)
import_name exe at = do
  namelen ← load8 exe at
  if ltb (length exe) (at + 1 + bit_and namelen 0x7f)
      then crash
      else ok (c_string (take (bit_and namelen 0x7f) (drop (at + 1) exe)))

-- `deref` reads a pointer out of mapped memory. A lookup that finds nothing makes a trampoline:
-- `trampoline` is what the lookup at a place of `fixup` makes, where an alias is wanted or not. Each
-- lookup of a page has its place.
module _ (deref : ℕ → Outcome ℕ) (trampoline : ℕ → Bool → Outcome (ℕ × Option Export)) where
  -- Case 1: an import by ordinal.
  unfoldable pub ordinal_target : List ℕ → Module → ℕ → ℕ → Bool → ℕ → ℕ → Outcome Target
  unfolding read_id read_offset import_value
  ordinal_target exe m flags kind alias finalval2 p = do
    (moduleid, q) ← read_id exe p (flag flags 0x40)
    (importid, r) ←
        if flag flags 0x80 then read_id exe q false else read_offset exe q (flag flags 0x10)
    (finalval, export) ← looked_up m moduleid λ exports.
        get_module_proc_addr_by_ordinal deref exports importid true
        >>= or_missing (trampoline r alias)
    (value, value2) ← import_value kind alias finalval export finalval2
    ok (value, value2, r)

  -- Case 2: an import by name.
  unfoldable pub name_target : List ℕ → Module → ℕ → ℕ → Bool → ℕ → ℕ → Outcome Target
  unfolding read_id read_offset import_value import_name
  name_target exe m flags kind alias finalval2 p = do
    (moduleid, q) ← read_id exe p (flag flags 0x40)
    (name_offset, r) ← read_offset exe q (flag flags 0x10)
    (finalval, export) ← looked_up m moduleid λ exports.
        import_name exe (m.import_proc_table + name_offset) >>= λ name.
        get_module_proc_addr_by_name deref exports name >>= or_missing (trampoline r alias)
    (value, value2) ← import_value kind alias finalval export finalval2
    ok (value, value2, r)

  -- The switch on the kind of target. Case 3 is not written.
  unfoldable pub read_target : List ℕ → Module → ℕ → ℕ → Bool → ℕ → ℕ → Outcome Target
  unfolding internal_target ordinal_target name_target
  read_target exe m flags kind alias finalval2 p =
      let target = bit_and flags 0x3 in
      if target == 0
      then internal_target exe m flags kind alias finalval2 p
      else (if target == 1
          then ordinal_target exe m flags kind alias finalval2 p
          else (if target == 2 then name_target exe m flags kind alias finalval2 p else halt))

-- What is added to a value, and the pointer behind it.
unfoldable pub read_additive : List ℕ → ℕ → ℕ → Outcome (ℕ × ℕ)
unfolding read_offset
read_additive exe flags p =
    if flag flags 0x4 then read_offset exe p (flag flags 0x20) else ok (0, p)

-- One source of a record. Kind 8 is relative to the address behind the fixup.
unfoldable pub fix_source : ℕ → ℕ → ℕ → ℕ → ℕ → List ℕ → Outcome (List ℕ)
unfolding do_fixup size_of
fix_source page kind finalval finalval2 offset mem =
    let at = add32 page (sext16 offset) in
    if kind == 8
    then do_fixup mem at (sub32 finalval (add32 at 4)) 0 (size_of kind)
    else do_fixup mem at finalval finalval2 (size_of kind)

-- The loop over a list of sources, with the pointer behind it.
unfoldable pub fix_sources : List ℕ → ℕ → ℕ → ℕ → ℕ → ℕ → ℕ → List ℕ → Outcome (List ℕ × ℕ)
unfolding fix_source
fix_sources exe page kind finalval finalval2 zero p mem = ok (mem, p)
fix_sources exe page kind finalval finalval2 (suc n) p mem = do
  offset ← load16 exe p
  mem' ← fix_source page kind finalval finalval2 offset mem
  fix_sources exe page kind finalval finalval2 n (p + 2) mem'

module _ (deref : ℕ → Outcome ℕ) (trampoline : ℕ → Bool → Outcome (ℕ × Option Export)) where
  -- The sources behind a record: those of its list, or the one that stands in it.
  unfoldable pub fix_all : List ℕ → ℕ → ℕ → ℕ → ℕ → Bool → ℕ → ℕ → List ℕ → Outcome (List ℕ × ℕ)
  unfolding fix_sources fix_source
  fix_all exe page kind finalval finalval2 true count p mem =
      fix_sources exe page kind finalval finalval2 count p mem
  fix_all exe page kind finalval finalval2 false srcoffset p mem =
      fix_source page kind finalval finalval2 srcoffset mem >>= λ mem'. ok (mem', p)

  -- One round of the loop: memory afterwards, and the pointer behind the record.
  unfoldable pub fixup_record : List ℕ → Module → ℕ → ℕ → List ℕ → Outcome (List ℕ × ℕ)
  unfolding read_target read_additive read_id fix_all
  fixup_record exe m page p mem = do
    srctype ← load8 exe p
    flags ← load8 exe (p + 1)
    (source, q) ← read_id exe (p + 2) (not (flag srctype 0x20))
    let kind = bit_and srctype 0xf
    let finalval2 = (if kind == 6 then m.original_cs else 0)
    (value, value2, r) ←
        read_target deref trampoline exe m flags kind (flag srctype 0x10) finalval2 q
    (additive, s) ← read_additive exe flags r
    fix_all exe page kind (add32 value additive) value2 (flag srctype 0x20) source s mem

  -- The loop over the records, up to the end of those of the page.
  unfoldable pub fixup_records : ℕ → List ℕ → Module → ℕ → ℕ → ℕ → List ℕ → Outcome (List ℕ)
  unfolding fixup_record
  fixup_records zero exe m page p fixupend mem = stuck
  fixup_records (suc fuel) exe m page p fixupend mem = elim (ltb p fixupend) [
    | false ↦ ok mem
    | true ↦
        fixup_record exe m page p mem >>= λ (mem', q). fixup_records fuel exe m page q fixupend mem'
  ]

  -- The offsets of the page's records, and of the next page's, stand in the fixup page table.
  unfoldable pub fixup_page : ℕ → List ℕ → Module → ℕ → ℕ → ℕ → ℕ → List ℕ → Outcome (List ℕ)
  unfolding fixup_records
  fixup_page fuel exe m page_table record_table pagenum page mem = do
    first ← load32 exe (page_table + 4 * pagenum)
    next ← load32 exe (page_table + 4 * pagenum + 4)
    let fixup = record_table + first
    fixup_records fuel exe m page fixup (fixup + sub32 next first) mem
