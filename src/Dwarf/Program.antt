-- ===== src/Dwarf/Program.antt =====
-- dwarf_info.c: the line number program of one compilation unit, as parse_debug_line counts it
-- (pass 1) and runs it (pass 2). Pointers are offsets into memory, and `p += len` wraps in 32 bits.
pub mod Ops
pub mod Encoded
pub mod Count
pub mod Hang
mod Runs
use ine_debugger.Prelude.{ℕ, zero, suc, ◌+◌, ◌-◌, ◌*◌, ◌/◌, ◌%◌, ◌^◌, ◌<◌}
use ine_debugger.Prelude.{Bool, true, false, ◌&&◌, ◌||◌, not, Option, none, some, List, [], ◌∷◌}
use ine_debugger.Prelude.{ltb, leb, ◌==◌, if◌then◌else◌, get_elem?}
use ine_debugger.Prelude.Word.{u8, u16, u32, add32, sub32}
use ine_debugger.Dwarf.Bytes.{◌>>=◌, read_u16_le, read_u32_le, read_uleb128, read_sleb128}

-- What the loops read of a unit's prologue, with the offset of the array of operand counts and
-- the end of the program.
pub record Header : Type 0 where
  pub min_instr_len : ℕ
  pub line_base : ℕ
  pub line_range : ℕ
  pub opcode_base : ℕ
  pub std_opcode_lengths : ℕ
  pub prog_end : ℕ

-- The registers; `line` and `file` are 32-bit patterns.
pub record Regs : Type 0 where
  pub address : ℕ
  pub segment : ℕ
  pub line : ℕ
  pub file : ℕ

-- DwarfLineEntry
pub record Row : Type 0 where
  pub segment : ℕ
  pub address : ℕ
  pub line : ℕ
  pub file : ℕ
  pub end_sequence : Bool

abbrev pub initial : Regs
initial = record { address = 0; segment = 0; line = 1; file = 1 }

-- The row of the registers: `(file > 0 && file < 256) ? file_map[file] : file`.
abbrev pub row_of : (ℕ → ℕ) → Regs → Bool → Row
row_of file_map r last = record {
  segment = r.segment;
  address = r.address;
  line = r.line;
  file = if ltb 0 r.file && ltb r.file 256 then file_map r.file else r.file;
  end_sequence = last;
}

-- Where a step goes on, its registers, and the row that it stores.
abbrev pub Step : Type 0
Step = ℕ × Regs × Option Row

-- A value of two or four bytes; of any other length, what was there before.
unfoldable pub read_sized : List ℕ → ℕ → ℕ → ℕ → Option ℕ
read_sized mem p len old =
    if len == 2 then read_u16_le mem p else (if len == 4 then read_u32_le mem p else some old)

-- Opcode 0, from its length on.
unfoldable pub extended : List ℕ → (ℕ → ℕ) → ℕ → Regs → Option Step
unfolding read_sized
extended mem file_map p r = do
  (size, q) ← read_uleb128 mem p
  sub ← get_elem? mem q
  let len = sub32 size 1
  let next = add32 (q + 1) len
  if sub == 1
      then some (next, initial, some (row_of file_map r true))
      else (if sub == 2
          then (read_sized mem (q + 1) len r.address >>= λ a.
              some (next, record r { address = a }, none))
          else (if sub == 4 || sub == 0x80
              then (read_sized mem (q + 1) len r.segment >>= λ s.
                  some (next, record r { segment = u16 s }, none))
              else some (next, r, none)))

-- `for (i = 0; i < n; i++) read_uleb128(&p)`
unfoldable pub skip_uleb128 : List ℕ → ℕ → ℕ → Option ℕ
skip_uleb128 mem zero p = some p
skip_uleb128 mem (suc n) p = do (v, q) ← read_uleb128 mem p; skip_uleb128 mem n q

-- The opcodes below `opcode_base`, with the pointer behind the opcode.
unfoldable pub standard : List ℕ → Header → (ℕ → ℕ) → ℕ → ℕ → Regs → Option Step
unfolding skip_uleb128
standard mem h file_map opcode p r =
    if opcode == 1
    then some (p, r, some (row_of file_map r false))
    else (if opcode == 2
        then (read_uleb128 mem p >>= λ (adv, q).
            some (q, record r { address = add32 r.address (u32 (adv * h.min_instr_len)) }, none))
        else (if opcode == 3
            then (read_sleb128 mem p >>= λ (adv, q).
                some (q, record r { line = add32 r.line adv }, none))
            else (if opcode == 4
                then (read_uleb128 mem p >>= λ (f, q). some (q, record r { file = f }, none))
                else (if opcode == 5
                    then (read_uleb128 mem p >>= λ (column, q). some (q, r, none))
                    else (if opcode == 6 || opcode == 7
                        then some (p, r, none)
                        else (if opcode == 8
                            then some (
                              p,
                              record r {
                                address =
                                    add32 r.address (u32 ((h.opcode_base - 1) * h.min_instr_len));
                                line = add32 r.line h.line_range;
                              },
                              none,
                            )
                            else (if opcode == 9
                                then (read_u16_le mem p >>= λ v.
                                    some (p + 2, record r { address = add32 r.address v }, none))
                                else (get_elem? mem (h.std_opcode_lengths + (opcode - 1)) >>= λ n.
                                    skip_uleb128 mem n p >>= λ q. some (q, r, none)))))))))

-- `(int8_t)` of a byte, as a 32-bit pattern.
abbrev pub sign8 : ℕ → ℕ
sign8 b = if ltb b 128 then b else 2 ^ 32 - 256 + b

-- The opcodes from `opcode_base` on. A `line_range` of 0 traps.
unfoldable pub special : Header → (ℕ → ℕ) → ℕ → ℕ → Regs → Option Step
special h file_map opcode p r =
    if h.line_range == 0
    then none
    else (let adjusted = opcode - h.opcode_base in
        let r' = record r {
          line = add32 r.line (add32 (sign8 h.line_base) (adjusted % h.line_range));
          address = add32 r.address (u32 (adjusted / h.line_range * h.min_instr_len));
        } in
        some (p, r', some (row_of file_map r' false)))

-- One round of pass 2.
unfoldable pub line_step : List ℕ → Header → (ℕ → ℕ) → ℕ → Regs → Option Step
unfolding extended standard special
line_step mem h file_map p r = do
  opcode ← get_elem? mem p
  if opcode == 0
      then extended mem file_map (p + 1) r
      else (if ltb opcode h.opcode_base
          then standard mem h file_map opcode (p + 1) r
          else special h file_map opcode (p + 1) r)

-- How a loop ends: with a result, by a bad access, or not within its fuel.
pub data Parsed {ℓ} (A : Type ℓ) : Type ℓ where
  done : A → Parsed A
  fault : Parsed A
  stuck : Parsed A

abbrev pub store : Option Row → Parsed (List Row) → Parsed (List Row)
store none rows = rows
store (some row) (done rows) = done (row ∷ rows)
store (some row) fault = fault
store (some row) stuck = stuck

abbrev pub room_left : Option Row → ℕ → ℕ
room_left none room = room
room_left (some row) room = room - 1

-- The loop of pass 2; `room` is `total_line_count - entry_idx`. The result is the list of rows.
unfoldable pub line_loop : ℕ → List ℕ → Header → (ℕ → ℕ) → ℕ → Regs → ℕ → Parsed (List Row)
line_loop zero mem h file_map p r room = stuck
line_loop (suc fuel) mem h file_map p r room = elim (ltb p h.prog_end && ltb 0 room) [
  | false ↦ done []
  | true ↦ elim (line_step mem h file_map p r) [
    | none ↦ fault
    | some (q, r', row) ↦ store row (line_loop fuel mem h file_map q r' (room_left row room))
  ]
]

-- Pass 1 goes on with a pointer and what it adds to the count, or leaves its loop.
pub data Counted : Type 0 where
  on : ℕ → ℕ → Counted
  leave : Counted

-- Opcode 0 in pass 1. The pointer is not moved over an end of sequence.
unfoldable pub count_extended : List ℕ → Header → ℕ → Option Counted
count_extended mem h p = do
  (size, q) ← read_uleb128 mem p
  if leb h.prog_end q
      then some leave
      else (get_elem? mem q >>= λ sub.
          if sub == 1 then some (on (q + 1) 1) else some (on (add32 (q + 1) (sub32 size 1)) 0))

-- One round of pass 1. Every standard opcode counts as a row.
unfoldable pub count_step : List ℕ → Header → ℕ → Option Counted
unfolding count_extended skip_uleb128
count_step mem h p = do
  opcode ← get_elem? mem p
  if opcode == 0
      then count_extended mem h (p + 1)
      else (if ltb opcode h.opcode_base
          then (if opcode == 2 || opcode == 4 || opcode == 5
              then (read_uleb128 mem (p + 1) >>= λ (v, q). some (on q 1))
              else (if opcode == 3
                  then (read_sleb128 mem (p + 1) >>= λ (v, q). some (on q 1))
                  else (if opcode == 1 || opcode == 6 || opcode == 7 || opcode == 8
                      then some (on (p + 1) 1)
                      else (if opcode == 9
                          then some (on (p + 1 + 2) 1)
                          else (get_elem? mem (h.std_opcode_lengths + (opcode - 1)) >>= λ n.
                              skip_uleb128 mem n (p + 1) >>= λ q. some (on q 1))))))
          else some (on (p + 1) 1))

abbrev pub add_count : ℕ → Parsed ℕ → Parsed ℕ
add_count n (done m) = done (n + m)
add_count n fault = fault
add_count n stuck = stuck

unfoldable pub count_loop : ℕ → List ℕ → Header → ℕ → Parsed ℕ
count_loop zero mem h p = stuck
count_loop (suc fuel) mem h p = elim (ltb p h.prog_end) [
  | false ↦ done 0
  | true ↦ elim (count_step mem h p) [
    | none ↦ fault
    | some leave ↦ done 0
    | some (on q n) ↦ add_count n (count_loop fuel mem h q)
  ]
]
