-- ===== src/Selectors.antt =====
-- lx_loader.c: the table of LDT selectors, and 16:16 addresses (lxSelectorToSegment to
-- lxConvertSegmentOffsetto32, initOs2StackSegments). The table is a function from slots, where 0
-- stands for a free one. `none` is a failed assert, which ends the process.
pub mod Scan
pub mod Find
pub mod Again
pub mod Table
pub mod Translate
pub mod Stack
mod Runs
use ine_debugger.Prelude.{ℕ, zero, suc, ◌+◌, ◌-◌, ◌*◌, ◌/◌, ◌%◌, ◌^◌, bit_or}
use ine_debugger.Prelude.{Bool, true, false, ◌&&◌, not, Option, none, some, List, [], ◌∷◌}
use ine_debugger.Prelude.{ltb, leb, ◌==◌, if◌then◌else◌}
use ine_debugger.Prelude.Word.{u16, u32, add32, ◌<<◌, ◌>>◌}

-- LX_MAX_LDT_SLOTS
abbrev pub max_slots : ℕ
max_slots = 8192

-- MODIFY_LDT_CONTENTS_DATA and MODIFY_LDT_CONTENTS_CODE, which the kernel's headers number.
pub data Contents : Type 0 where
  contents_data contents_code : Contents

-- struct user_desc, as far as the loader fills it in.
pub record UserDesc : Type 0 where
  pub entry_number : ℕ
  pub base_addr : ℕ
  pub limit : ℕ
  pub seg_32bit : Bool
  pub contents : Contents
  pub read_exec_only : Bool
  pub limit_in_pages : Bool
  pub seg_not_present : Bool
  pub useable : Bool

-- An entry of a module's `mmaps`; `exec` is `prot & PROT_EXEC`.
pub record Mmap : Type 0 where
  pub addr : ℕ
  pub size : ℕ
  pub exec : Bool

pub record Loader : Type 0 where
  pub ldt : ℕ → ℕ
  pub loaded_modules : List (List Mmap)

abbrev pub update : (ℕ → ℕ) → ℕ → ℕ → ℕ → ℕ
update f i v j = if i == j then v else f j

-- `(tile <= addr) && ((tile + 0x10000) > addr)`
abbrev pub covers : ℕ → ℕ → Bool
covers tile addr = leb tile addr && ltb addr (add32 tile 0x10000)

-- What the look at the tiled slot finds: the answer, a free slot to prefer, or nothing.
pub data Tiled : Type 0 where
  found : ℕ → ℕ → Tiled
  prefer : ℕ → Tiled
  other : Tiled

unfoldable pub tiled : (ℕ → ℕ) → ℕ → Tiled
tiled ldt addr =
    if ltb addr (1024 * 1024 * 512)
    then (let idx = u16 (addr >> 16) in
        let tile = ldt idx in
        if tile == 0
        then prefer idx
        else (if covers tile addr then found idx (u16 (addr - tile)) else other))
    else other

-- The loop over all slots, from slot `i` on with `n` to go.
pub data Scanned : Type 0 where
  hit : ℕ → ℕ → Scanned
  miss : Option ℕ → Scanned

unfoldable pub scan : (ℕ → ℕ) → ℕ → ℕ → ℕ → Option ℕ → Scanned
scan ldt addr zero i available = miss available
scan ldt addr (suc n) i available =
    let tile = ldt i in
    let rest = scan ldt addr n (i + 1) (if tile == 0 then some i else available) in
    if tile == 0 then rest else (if covers tile addr then hit (u16 i) (u16 (addr - tile)) else rest)

-- Whether code is mapped at an address: the first mapping that holds it decides. The test on
-- the upper end is `<=`.
pub mapped_code : List Mmap → ℕ → Option Bool
mapped_code [] addr = none
mapped_code (m ∷ ms) addr =
    if leb m.addr addr && leb addr (add32 m.addr m.size) then some m.exec else mapped_code ms addr

-- `iscode` is `none` for -1.
pub decide_code : List (List Mmap) → ℕ → Option Bool → Bool
unfolding mapped_code
decide_code modules addr (some b) = b
decide_code [] addr none = false
decide_code (m ∷ ms) addr none = decide_code ms addr (mapped_code m addr)

-- `(selector << 3) | 7`, in 16 bits.
abbrev pub selector_to_segment : ℕ → ℕ
selector_to_segment selector = u16 (bit_or (selector << 3) 7)

-- The kernel's answer to SYS_modify_ldt: true for 0.
module _ (modify_ldt : UserDesc → Bool) where
  unfoldable pub allocate_selector : ℕ → ℕ → ℕ → Contents → Bool → Loader → Option (Bool × Loader)
  allocate_selector selector pages addr contents is32bit s =
      if not (ltb selector max_slots)
      then none
      else (if not (s.ldt selector == 0)
          then some (false, s)
          else (if modify_ldt (record {
            entry_number = selector;
            base_addr = addr;
            limit = pages;
            seg_32bit = is32bit;
            contents = contents;
            read_exec_only = false;
            limit_in_pages = true;
            seg_not_present = false;
            useable = true;
          })
              then some (true, record s { ldt = update s.ldt selector addr })
              else some (false, s)))

  unfoldable pub free_selector : ℕ → Loader → Option Loader
  free_selector selector s =
      if not (ltb selector max_slots)
      then none
      else (if s.ldt selector == 0
          then some s
          else (if modify_ldt (record {
            entry_number = selector;
            base_addr = 0;
            limit = 0;
            seg_32bit = false;
            contents = Contents.contents_data;
            read_exec_only = true;
            limit_in_pages = false;
            seg_not_present = true;
            useable = false;
          })
              then some (record s { ldt = update s.ldt selector 0 })
              else some s))

  -- The part behind the search: take the slot, on a border of 64k. The result is the selector and
  -- the offset, or `none` for the return value 0.
  unfoldable pub map_new : ℕ → Option Bool → ℕ → Loader → Option (Option (ℕ × ℕ) × Loader)
  unfolding decide_code
  map_new addr iscode slot s =
      let code = decide_code s.loaded_modules addr iscode in
      let diff = addr % 0x10000 in
      elim (allocate_selector (u16 slot) 16 (addr - diff)
        (if code then Contents.contents_code else Contents.contents_data) false s) [
          | none ↦ none
          | some (false, s') ↦ some (none, s')
          | some (true, s') ↦ some (some (u16 slot, u16 diff), s')
        ]

  -- The loop, and what follows where it finds nothing. `preferred` is also the first `available`.
  unfoldable pub find_untiled :
      ℕ → Option Bool → Option ℕ → Loader → Option (Option (ℕ × ℕ) × Loader)
  find_untiled addr iscode preferred s = elim (scan s.ldt addr max_slots 0 preferred) [
    | hit selector offset ↦ some (some (selector, offset), s)
    | miss none ↦ some (none, s)
    | miss (some available) ↦
        map_new addr iscode (elim preferred [ some p ↦ p | none ↦ available ]) s
  ]

  unfoldable pub find_selector : ℕ → Option Bool → Loader → Option (Option (ℕ × ℕ) × Loader)
  find_selector addr iscode s = if ltb addr 4096 then some (none, s) else elim (tiled s.ldt addr) [
    | found selector offset ↦ some (some (selector, offset), s)
    | prefer idx ↦ find_untiled addr iscode (some idx) s
    | other ↦ find_untiled addr iscode none s
  ]

  -- The flat address as segment and offset; 0 for NULL and where no selector is left.
  unfoldable pub convert_32_to_1616 : ℕ → Loader → Option (ℕ × Loader)
  convert_32_to_1616 addr32 s =
      if addr32 == 0 then some (0, s) else elim (find_selector addr32 none s) [
        | none ↦ none
        | some (none, s') ↦ some (0, s')
        | some (some (selector, offset), s') ↦
            some (bit_or (u32 (selector_to_segment selector << 16)) offset, s')
      ]

  -- The rounds of initOs2StackSegments, `n` of them; each one frees or takes one tile.
  unfoldable pub stack_rounds : ℕ → ℕ → Bool → Loader → Option Loader
  stack_rounds zero addr deinit s = some s
  stack_rounds (suc n) addr deinit s =
      elim (if deinit
        then free_selector (u16 (addr >> 16)) s
        else (elim (allocate_selector (u16 (addr >> 16)) 16 addr Contents.contents_data false s) [
          | none ↦ none
          | some (ok, s') ↦ some s'
        ])) [ none ↦ none | some s' ↦ stack_rounds n (add32 addr 0x10000) deinit s' ]

  -- `while (stacklen)` takes off 64k a round, and the length is padded to a multiple of that.
  unfoldable pub init_os2_stack_segments : ℕ → ℕ → Bool → Loader → Option Loader
  init_os2_stack_segments addr stacklen deinit s =
      let diff = addr % 0x10000 in
      let len = add32 stacklen diff in
      let padded = (if len % 0x10000 == 0 then len else add32 len (0x10000 - len % 0x10000)) in
      stack_rounds (padded / 0x10000) (addr - diff) deinit s

unfoldable pub convert_1616_to_32 : Loader → ℕ → Option ℕ
convert_1616_to_32 s addr1616 =
    if addr1616 == 0
    then some 0
    else (let selector = u16 (addr1616 >> 19) in
        if s.ldt selector == 0 then none else some (add32 (s.ldt selector) (addr1616 % 0x10000)))

unfoldable pub convert_segment_offset_to_32 : Loader → ℕ → ℕ → Option ℕ
unfolding convert_1616_to_32
convert_segment_offset_to_32 s seg off = convert_1616_to_32 s (bit_or (u32 (seg << 16)) off)
