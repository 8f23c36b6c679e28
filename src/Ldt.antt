-- ===== src/Ldt.antt =====
-- debugger/ldt_access.c: the debugger's view of the selector table. The state is shared memory of
-- 8192 slots; `none` is a null pointer.
pub mod Inverse
mod Runs
use ine_debugger.Prelude.{ℕ, zero, suc, ◌+◌, ◌-◌, ◌*◌, ◌/◌, ◌%◌, ◌^◌, bit_and, bit_or}
use ine_debugger.Prelude.{Bool, true, false, ◌&&◌, not, Option, none, some}
use ine_debugger.Prelude.{ltb, leb, ◌==◌, if◌then◌else◌}
use ine_debugger.Prelude.Word.{u16, u32, add32, ◌<<◌, ◌>>◌}

-- DebugSharedState, as far as these functions read it.
pub record DebugSharedState : Type 0 where
  pub selectors : ℕ → ℕ
  pub limit : ℕ → ℕ
  pub is_code : ℕ → Bool
  pub is_32bit : ℕ → Bool

abbrev pub max_slots : ℕ
max_slots = 8192

-- `(selector >> 3) & 0x1FFF`
abbrev pub index_of : ℕ → ℕ
index_of selector = bit_and (selector >> 3) 0x1fff

unfoldable pub ldt_selector_to_linear : Option DebugSharedState → ℕ → ℕ → ℕ
ldt_selector_to_linear none selector offset = 0xffffffff
ldt_selector_to_linear (some state) selector offset =
    if bit_and selector 0x4 == 0
    then u32 (selector * 8 + offset)
    else (let index = index_of selector in
        if leb max_slots index
        then 0xffffffff
        else (let base = state.selectors index in
            if base == 0 && not (index == 0) then 0xffffffff else add32 base offset))

-- `linear >= base && linear < base + limit`, for a slot in use.
abbrev pub slot_holds : DebugSharedState → ℕ → ℕ → Bool
slot_holds state linear i =
    not (state.selectors i == 0)
    && leb (state.selectors i) linear
    && ltb linear (add32 (state.selectors i) (state.limit i))

-- `(i << 3) | 0x04 | 0x03`, and `linear - base`, in 16 bits each.
abbrev pub selector_at : DebugSharedState → ℕ → ℕ → ℕ × ℕ
selector_at state linear i =
    (u16 (bit_or (bit_or (i << 3) 0x04) 0x03), u16 (linear - state.selectors i))

-- The loop from slot `i` on, with `n` slots to go.
unfoldable pub search_slots : DebugSharedState → ℕ → ℕ → ℕ → Option (ℕ × ℕ)
search_slots state linear zero i = none
search_slots state linear (suc n) i =
    let further = search_slots state linear n (i + 1) in
    if slot_holds state linear i then some (selector_at state linear i) else further

-- The selector and the offset, or -1.
unfoldable pub ldt_linear_to_selector : Option DebugSharedState → ℕ → Option (ℕ × ℕ)
unfolding search_slots
ldt_linear_to_selector none linear = none
ldt_linear_to_selector (some state) linear = search_slots state linear max_slots 0

-- The names that ldt_get_segment_name answers.
pub data SegmentName : Type 0 where
  unknown : SegmentName
  gdt : SegmentName
  inv : SegmentName
  null : SegmentName
  code32 : SegmentName
  code : SegmentName
  data_segment : SegmentName

unfoldable pub ldt_get_segment_name : Option DebugSharedState → ℕ → SegmentName
ldt_get_segment_name none selector = unknown
ldt_get_segment_name (some state) selector =
    let index = index_of selector in
    if bit_and selector 0x4 == 0
    then gdt
    else (if leb max_slots index
        then inv
        else (if state.selectors index == 0
            then null
            else (if selector == 0x5b
                then code32
                else (if state.is_code index then code else data_segment))))

unfoldable pub ldt_is_32bit_segment : Option DebugSharedState → ℕ → Bool
ldt_is_32bit_segment none selector = true
ldt_is_32bit_segment (some state) selector =
    let index = index_of selector in
    if bit_and selector 0x4 == 0
    then true
    else (if leb max_slots index
        then true
        else (if state.selectors index == 0 then true else state.is_32bit index))
