-- ===== src/Dwarf/Aranges.antt =====
-- dwarf_info.c: parse_debug_aranges. Memory is the list of bytes from address 0 on, and pointers
-- are addresses, so that their sums wrap in 32 bits.
pub mod Passes
pub mod Encoded
pub mod Section
pub mod Units
pub mod Hang
mod Runs
use ine_debugger.Prelude.{ℕ, zero, suc, ◌+◌, ◌-◌, ◌*◌, ◌/◌, ◌%◌, ◌^◌, bit_or}
use ine_debugger.Prelude.{Bool, true, false, ◌&&◌, ◌||◌, Option, none, some, List, [], ◌∷◌, ◌++◌}
use ine_debugger.Prelude.{ltb, leb, ◌==◌, if◌then◌else◌, get_elem?, length}
use ine_debugger.Prelude.Word.{u16, u32, add32, ◌<<◌}
use ine_debugger.Dwarf.Bytes.{◌>>=◌, read_u32_le}
use ine_debugger.Dwarf.Program.{Parsed, done, fault, stuck, add_count}
use ine_debugger.Dwarf.Lookup.{Range}

-- `for (i = 0; i < n; i++) value |= (uint32_t)p[i] << (8 * i)`, from a later `i` on.
unfoldable pub read_field : List ℕ → ℕ → ℕ → ℕ → ℕ → Option ℕ
read_field mem p zero i value = some value
read_field mem p (suc n) i value = do
  b ← get_elem? mem (p + i)
  read_field mem p n (i + 1) (bit_or value (u32 (b << (8 * i))))

-- The three fields of an entry: address, segment, length.
unfoldable pub entry_at : List ℕ → ℕ → ℕ → ℕ → Option (ℕ × ℕ × ℕ)
unfolding read_field
entry_at mem addr_size seg_size p = do
  addr ← read_field mem p addr_size 0 0
  seg ← read_field mem (p + addr_size) seg_size 0 0
  len ← read_field mem (p + addr_size + seg_size) addr_size 0 0
  some (addr, seg, len)

abbrev pub is_end : ℕ × ℕ × ℕ → Bool
is_end (addr, seg, len) = addr == 0 && seg == 0 && len == 0

-- The inner loop of pass 1; `p` is moved by the three fields.
unfoldable pub count_entries : ℕ → List ℕ → ℕ → ℕ → ℕ → ℕ → Parsed ℕ
unfolding entry_at
count_entries zero mem addr_size seg_size p unit_end = stuck
count_entries (suc fuel) mem addr_size seg_size p unit_end =
    let next = add32 p (addr_size + seg_size + addr_size) in
    let further = count_entries fuel mem addr_size seg_size next unit_end in
    elim (leb next unit_end) [
      | false ↦ done 0
      | true ↦ elim (entry_at mem addr_size seg_size p) [
        | none ↦ fault
        | some entry ↦ if is_end entry then done 0 else add_count 1 further
      ]
    ]

abbrev pub range_of : ℕ × ℕ × ℕ → Range
range_of (addr, seg, len) = record { segment = u16 seg; address = addr; size = len }

abbrev pub add_range : Range → Parsed (List Range) → Parsed (List Range)
add_range range (done ranges) = done (range ∷ ranges)
add_range range fault = fault
add_range range stuck = stuck

-- The inner loop of pass 2; `room` is `total_range_count - idx`.
unfoldable pub fill_entries : ℕ → List ℕ → ℕ → ℕ → ℕ → ℕ → ℕ → Parsed (List Range)
unfolding entry_at
fill_entries zero mem addr_size seg_size p unit_end room = stuck
fill_entries (suc fuel) mem addr_size seg_size p unit_end room =
    let next = add32 p (addr_size + seg_size + addr_size) in
    let further = fill_entries fuel mem addr_size seg_size next unit_end (room - 1) in
    elim (leb next unit_end && ltb 0 room) [
      | false ↦ done []
      | true ↦ elim (entry_at mem addr_size seg_size p) [
        | none ↦ fault
        | some entry ↦ if is_end entry then done [] else add_range (range_of entry) further
      ]
    ]

-- The head of a unit: `total_length`, `addr_size` and `seg_size`.
unfoldable pub unit_head : List ℕ → ℕ → Option (ℕ × ℕ × ℕ)
unit_head mem cursor = do
  total_length ← read_u32_le mem cursor
  addr_size ← get_elem? mem (cursor + 10)
  seg_size ← get_elem? mem (cursor + 11)
  some (total_length, addr_size, seg_size)

abbrev pub both_counts : Parsed ℕ → Parsed ℕ → Parsed ℕ
both_counts (done n) further = add_count n further
both_counts fault further = fault
both_counts stuck further = stuck

-- The loop of pass 1 over the units; `steps` is the fuel of the inner loop.
unfoldable pub count_ranges : ℕ → ℕ → List ℕ → ℕ → ℕ → Parsed ℕ
unfolding unit_head count_entries
count_ranges steps zero mem cursor stop = stuck
count_ranges steps (suc fuel) mem cursor stop = elim (leb (add32 cursor 12) stop) [
  | false ↦ done 0
  | true ↦ elim (unit_head mem cursor) [
    | none ↦ fault
    | some (total_length, addr_size, seg_size) ↦
        (let unit_end = add32 cursor (4 + total_length) in
          let here = count_entries steps mem addr_size seg_size (add32 cursor 12) unit_end in
          let further = count_ranges steps fuel mem unit_end stop in
          if total_length == 0 || ltb stop unit_end then done 0 else both_counts here further)
  ]
]

abbrev pub prepend : List Range → Parsed (List Range) → Parsed (List Range)
prepend here (done ranges) = done (here ++ ranges)
prepend here fault = fault
prepend here stuck = stuck

-- Pass 2 goes on over the units with the room that is left.
unfoldable pub fill_ranges : ℕ → ℕ → List ℕ → ℕ → ℕ → ℕ → Parsed (List Range)
unfolding unit_head fill_entries
fill_ranges steps zero mem cursor stop room = stuck
fill_ranges steps (suc fuel) mem cursor stop room =
    elim (leb (add32 cursor 12) stop && ltb 0 room) [
      | false ↦ done []
      | true ↦ elim (unit_head mem cursor) [
        | none ↦ fault
        | some (total_length, addr_size, seg_size) ↦
            (let unit_end = add32 cursor (4 + total_length) in
              elim (total_length == 0 || ltb stop unit_end) [
                | true ↦ done []
                | false ↦
                    elim (fill_entries steps mem addr_size seg_size (add32 cursor 12) unit_end
                      room) [
                        | fault ↦ fault
                        | stuck ↦ stuck
                        | done here ↦
                            prepend here
                              (fill_ranges steps fuel mem unit_end stop (room - length here))
                      ]
              ])
      ]
    ]

-- Both passes, for a section of `size` bytes at `start`. Here calloc always succeeds.
unfoldable pub parse_debug_aranges : ℕ → ℕ → List ℕ → ℕ → ℕ → Parsed (List Range)
unfolding count_ranges fill_ranges
parse_debug_aranges steps fuel mem start size =
    if ltb size 12 then done [] else elim (count_ranges steps fuel mem start (add32 start size)) [
      | fault ↦ fault
      | stuck ↦ stuck
      | done total ↦
          if total == 0 then done [] else fill_ranges steps fuel mem start (add32 start size) total
    ]
