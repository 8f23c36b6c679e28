-- ===== src/Dwarf/Program/Ops.antt =====
-- The operations of a line number program as data: their bytes, and what they mean.
use ine_debugger.Prelude.{ℕ, ◌-◌, ◌*◌, ◌/◌, ◌%◌, ◌^◌, ◌<◌, ◌≤◌, ◌≢◌}
use ine_debugger.Prelude.{Bool, true, false, Option, none, some, List, [], ◌∷◌, ◌++◌}
use ine_debugger.Prelude.Word.{u32, add32, IsU32, IsU16}
pub use ine_debugger.Prelude.Memory.{le16, le32}
use ine_debugger.Dwarf.Bytes.Leb.{uleb_bytes}
use ine_debugger.Dwarf.Bytes.SignedLeb.{sleb_bytes, pattern_of}
use ine_debugger.Dwarf.Program.{Header, Regs, Row, initial, row_of, sign8}

pub data LineOp : Type 0 where
  copy : LineOp
  advance_pc : ℕ → LineOp
  advance_line : Bool → ℕ → LineOp
  set_file : ℕ → LineOp
  set_column : ℕ → LineOp
  negate_stmt : LineOp
  basic_block : LineOp
  const_add_pc : LineOp
  fixed_advance_pc : ℕ → LineOp
  special_op : ℕ → LineOp
  end_of_sequence : LineOp
  set_address16 : ℕ → LineOp
  set_address32 : ℕ → LineOp
  set_segment : Bool → ℕ → LineOp

-- The two opcodes of DW_LNE_WATCOM_set_segment.
abbrev pub segment_code : Bool → ℕ
segment_code true = 4
segment_code false = 0x80

abbrev pub op_bytes : LineOp → List ℕ
op_bytes copy = 1 ∷ []
op_bytes (advance_pc n) = 2 ∷ uleb_bytes 4 n
op_bytes (advance_line neg m) = 3 ∷ sleb_bytes 4 neg m
op_bytes (set_file n) = 4 ∷ uleb_bytes 4 n
op_bytes (set_column n) = 5 ∷ uleb_bytes 4 n
op_bytes negate_stmt = 6 ∷ []
op_bytes basic_block = 7 ∷ []
op_bytes const_add_pc = 8 ∷ []
op_bytes (fixed_advance_pc n) = 9 ∷ le16 n
op_bytes (special_op n) = n ∷ []
op_bytes end_of_sequence = 0 ∷ 1 ∷ 1 ∷ []
op_bytes (set_address16 a) = 0 ∷ 3 ∷ 2 ∷ le16 a
op_bytes (set_address32 a) = 0 ∷ 5 ∷ 2 ∷ le32 a
op_bytes (set_segment old s) = 0 ∷ 3 ∷ segment_code old ∷ le16 s

-- Operands that the format can hold, under a header with the nine standard opcodes.
abbrev pub IsOp : Header → LineOp → Type 0
IsOp h copy = Unit {0}
IsOp h (advance_pc n) = IsU32 n
IsOp h (advance_line neg m) = m < 2 ^ 31
IsOp h (set_file n) = IsU32 n
IsOp h (set_column n) = IsU32 n
IsOp h negate_stmt = Unit {0}
IsOp h basic_block = Unit {0}
IsOp h const_add_pc = Unit {0}
IsOp h (fixed_advance_pc n) = IsU16 n
IsOp h (special_op n) = (h.opcode_base ≤ n) × (h.line_range ≢ 0)
IsOp h end_of_sequence = Unit {0}
IsOp h (set_address16 a) = IsU16 a
IsOp h (set_address32 a) = IsU32 a
IsOp h (set_segment old s) = IsU16 s

module _ (h : Header) (file_map : ℕ → ℕ) where
  abbrev advanced : Regs → ℕ → Regs
  advanced r n = record r { address = add32 r.address (u32 (n * h.min_instr_len)) }

  -- The registers after an operation, and the row that it stores.
  abbrev pub op_regs : LineOp → Regs → Regs
  op_regs copy r = r
  op_regs (advance_pc n) r = advanced r n
  op_regs (advance_line neg m) r = record r { line = add32 r.line (pattern_of neg m) }
  op_regs (set_file n) r = record r { file = n }
  op_regs (set_column n) r = r
  op_regs negate_stmt r = r
  op_regs basic_block r = r
  op_regs const_add_pc r = record r {
    address = add32 r.address (u32 ((h.opcode_base - 1) * h.min_instr_len));
    line = add32 r.line h.line_range;
  }
  op_regs (fixed_advance_pc n) r = record r { address = add32 r.address n }
  op_regs (special_op n) r = record r {
    line = add32 r.line (add32 (sign8 h.line_base) ((n - h.opcode_base) % h.line_range));
    address = add32 r.address (u32 ((n - h.opcode_base) / h.line_range * h.min_instr_len));
  }
  op_regs end_of_sequence r = initial
  op_regs (set_address16 a) r = record r { address = a }
  op_regs (set_address32 a) r = record r { address = a }
  op_regs (set_segment old s) r = record r { segment = s }

  abbrev pub op_row : LineOp → Regs → Option Row
  op_row copy r = some (row_of file_map r false)
  op_row (special_op n) r = some (row_of file_map (op_regs (special_op n) r) false)
  op_row end_of_sequence r = some (row_of file_map r true)
  op_row other r = none

  -- The rows of a list of operations.
  abbrev pub op_rows : List LineOp → Regs → List Row
  op_rows [] r = []
  op_rows (op ∷ ops) r = elim (op_row op r) [
    | none ↦ op_rows ops (op_regs op r)
    | some row ↦ row ∷ op_rows ops (op_regs op r)
  ]

abbrev pub encode_ops : List LineOp → List ℕ
encode_ops [] = []
encode_ops (op ∷ ops) = op_bytes op ++ encode_ops ops
