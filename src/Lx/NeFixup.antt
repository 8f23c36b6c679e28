-- ===== src/Lx/NeFixup.antt =====
-- lx_loader.c: the fixups of a segment of an NE module (fixupNeSegment). The segment is mapped as a
-- list of bytes, and so are the file and its part from the NE header on; far addresses come from the selector table, which is passed on.
pub mod Links
mod Runs
use ine_debugger.Prelude.{ℕ, zero, suc, ◌+◌, ◌-◌, ◌*◌, ◌/◌, ◌%◌, ◌^◌, bit_or, bit_and}
use ine_debugger.Prelude.{Bool, true, false, ◌&&◌, ◌||◌, not, Option, none, some, List, [], ◌∷◌}
use ine_debugger.Prelude.{ltb, ◌==◌, if◌then◌else◌, get_elem?, take, drop, length}
use ine_debugger.Prelude.Memory.{
  Outcome, ok, crash, halt, stuck, ◌>>=◌, load8, load16, load32, flag,
}
use ine_debugger.Prelude.Memory.{store8, store16}
use ine_debugger.Prelude.Word.{u16, u32, ◌<<◌}
use ine_debugger.Selectors.{UserDesc, Loader, selector_to_segment, convert_32_to_1616}
use ine_debugger.Lx.{Object}
use ine_debugger.Lx.Exports.{c_string}

-- NeSegmentTableEntry, as far as fixups read it.
pub record NeSegment : Type 0 where
  pub offset : ℕ
  pub size : ℕ
  pub segment_flags : ℕ

-- What fixups need of the module.
pub record NeModule : Type 0 where
  pub mmaps : List Object
  pub imported_names_table : ℕ
  pub num_dependencies : ℕ

-- What is written at one place, by the kind of source.
unfoldable pub put_source : List ℕ → ℕ → ℕ → ℕ → Outcome (List ℕ)
put_source dst kind at target =
    if kind == 0
    then store8 dst at (target % 2 ^ 8)
    else (if kind == 2
        then store16 dst at (target / 2 ^ 16)
        else (if kind == 3
            then (store16 dst at (target % 2 ^ 16) >>= λ mid.
                store16 mid (at + 2) (target / 2 ^ 16))
            else (if kind == 5 then store16 dst at (target % 2 ^ 16) else ok dst)))

-- What is added at one place.
unfoldable pub add_source : List ℕ → ℕ → ℕ → ℕ → Outcome (List ℕ)
add_source dst kind at target =
    if kind == 0
    then (load8 dst at >>= λ v. store8 dst at ((v + target % 2 ^ 8) % 2 ^ 8))
    else (if kind == 2
        then (load16 dst at >>= λ v. store16 dst at (u16 (v + target / 2 ^ 16)))
        else (if kind == 3
            then (load16 dst at >>= λ v. store16 dst at (u16 (v + target % 2 ^ 16)) >>= λ mid.
                load16 mid (at + 2) >>= λ w. store16 mid (at + 2) (u16 (w + target / 2 ^ 16)))
            else (if kind == 5
                then (load16 dst at >>= λ v. store16 dst at (u16 (v + target % 2 ^ 16)))
                else ok dst)))

-- The loop along a chain of places, each of which holds the next; on fuel.
unfoldable pub source_chain : ℕ → ℕ → ℕ → ℕ → ℕ → List ℕ → Outcome (List ℕ)
unfolding put_source
source_chain zero size kind target offset dst = stuck
source_chain (suc fuel) size kind target offset dst = elim (ltb offset size) [
  | false ↦ ok dst
  | true ↦ load16 dst offset >>= λ next.
      put_source dst kind offset target >>= λ dst'. source_chain fuel size kind target next dst'
]

module _ (modify_ldt : UserDesc → Bool) (own_ordinal : ℕ → ℕ) (by_ordinal : ℕ → ℕ → ℕ)
    (by_name : ℕ → List ℕ → ℕ) where
  -- `if (addr) target = lxConvert32to1616(addr)`; a failed assert ends the process.
  unfoldable pub far_target : Loader → ℕ → Outcome (ℕ × Loader)
  far_target s addr =
      if addr == 0
      then ok (0, s)
      else elim (convert_32_to_1616 modify_ldt addr s) [ none ↦ halt | some r ↦ ok r ]

  -- Case 0: a segment of the module itself, or an entry of its own.
  unfoldable pub own_target : List ℕ → NeModule → ℕ → Loader → Outcome (ℕ × Loader)
  unfolding far_target
  own_target origexe m p s = do
    segment ← load8 origexe p
    offset ← load16 origexe (p + 2)
    if segment == 0xff
        then far_target s (own_ordinal offset)
        else (if segment == 0 then crash else elim (get_elem? m.mmaps (segment - 1)) [
          | none ↦ crash
          | some object ↦ ok (bit_or (u32 (selector_to_segment object.alias << 16)) offset, s)
        ])

  -- Cases 1 and 2. A module beyond the dependencies is read out of bounds.
  unfoldable pub ne_import_name : List ℕ → ℕ → Outcome (List ℕ)
  ne_import_name exe at = do
    namelen ← load8 exe at
    if ltb (length exe) (at + 1 + namelen)
        then crash
        else ok (c_string (take namelen (drop (at + 1) exe)))

  unfoldable pub import_target :
      List ℕ → List ℕ → NeModule → Bool → ℕ → Loader → Outcome (ℕ × Loader)
  unfolding far_target ne_import_name
  import_target origexe exe m named p s = do
    moduleid ← load16 origexe p
    what ← load16 origexe (p + 2)
    if moduleid == 0 || ltb m.num_dependencies moduleid
        then crash
        else (if named
            then (ne_import_name exe (m.imported_names_table + what) >>= λ name.
                far_target s (by_name (moduleid - 1) name))
            else far_target s (by_ordinal (moduleid - 1) what))

  -- One record: the segment and the selector table afterwards.
  unfoldable pub ne_fixup :
      ℕ → List ℕ → List ℕ → NeModule → ℕ → ℕ → List ℕ × Loader → Outcome (List ℕ × Loader)
  unfolding own_target import_target source_chain add_source
  ne_fixup fuel origexe exe m size p (dst, s) = do
    srctype ← load8 origexe p
    flags ← load8 origexe (p + 1)
    offset ← load16 origexe (p + 2)
    let kind = bit_and srctype 0xf
    let how = bit_and flags 0x3
    if how == 3
        then ok (dst, s)
        else ((if how == 0
              then own_target origexe m (p + 4) s
              else import_target origexe exe m (how == 2) (p + 4) s)
            >>= λ (target, s').
                (if flag flags 0x4
                  then add_source dst kind offset target
                  else source_chain fuel size kind target offset dst)
                >>= λ dst'. ok (dst', s'))

  unfoldable pub ne_fixups :
      ℕ → ℕ → List ℕ → List ℕ → NeModule → ℕ → ℕ → List ℕ × Loader → Outcome (List ℕ × Loader)
  unfolding ne_fixup
  ne_fixups zero fuel origexe exe m size p state = ok state
  ne_fixups (suc n) fuel origexe exe m size p state =
      ne_fixup fuel origexe exe m size p state >>= λ state'.
      ne_fixups n fuel origexe exe m size (p + 8) state'

  unfoldable pub fixup_ne_segment :
      ℕ → List ℕ → List ℕ → NeModule → NeSegment → ℕ → List ℕ × Loader → Outcome (List ℕ × Loader)
  unfolding ne_fixups
  fixup_ne_segment fuel origexe exe m seg sector_shift state =
      if not (flag seg.segment_flags 0x100)
      then ok state
      else (let p = seg.offset * 2 ^ sector_shift + (if seg.size == 0 then 0xffff else seg.size) in
          load16 origexe p >>= λ num_fixups.
          ne_fixups num_fixups fuel origexe exe m seg.size (p + 2) state)
