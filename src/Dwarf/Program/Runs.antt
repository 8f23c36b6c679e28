-- ===== src/Dwarf/Program/Runs.antt =====
-- The theorems on line number programs at concrete bytes.
use ine_debugger.Prelude.{ℕ, ◌≡◌, refl, arith, true, some, List, [], ◌∷◌}
use ine_debugger.Prelude.{All}
use ine_debugger.Dwarf.Bytes.{read_uleb128}
use ine_debugger.Dwarf.Bytes.Leb.{uleb_bytes}
use ine_debugger.Dwarf.Bytes.SignedLeb.{sleb_bytes}
use ine_debugger.Dwarf.Program.{Header, done, stuck, count_loop, line_loop, initial}
use ine_debugger.Dwarf.Program.Ops.{
  LineOp, IsOp, op_rows, copy, advance_pc, special_op, end_of_sequence,
}
use ine_debugger.Dwarf.Program.Ops.{set_address32, advance_line}
use ine_debugger.Dwarf.Program.Count.{Stands, count_loop-line_loop}
use ine_debugger.Dwarf.Program.Hang.{count_loop-stuck}

abbrev ops : List LineOp
ops =
    set_address32 0x10000
    ∷ advance_line true 3
    ∷ copy
    ∷ special_op 75
    ∷ advance_pc 300
    ∷ end_of_sequence
    ∷ []

abbrev header : Header
header = record {
  min_instr_len = 1;
  line_base = 251;
  line_range = 14;
  opcode_base = 10;
  std_opcode_lengths = 15;
  prog_end = 18;
}

abbrev memory : List ℕ
memory = 9 ∷ 0 ∷ 5 ∷ 2 ∷ 0 ∷ 0 ∷ 1 ∷ 0 ∷ 3 ∷ 124 ∷ 1 ∷ 75 ∷ 2 ∷ 172 ∷ 2 ∷ 0 ∷ 1 ∷ 1 ∷ 7 ∷ []

memory-Stands : Stands memory header 1 ops (7 ∷ [])
unfolding uleb_bytes sleb_bytes
memory-Stands = (omega arith, refl, omega arith, operands, refl)
  where
    operands : All (IsOp header) ops
    operands = (
      omega arith,
      (omega arith, (tt, ((omega arith, λ e. absurd (omega (arith, e))), (omega arith, (tt, tt))))),
    )

count_loop-line_loop_example :
    (n : ℕ) × (count_loop 7 memory header 1 ≡ done n)
    × (line_loop 7 memory header (λ f. f) 1 initial n ≡ done (op_rows header (λ f. f) ops initial))
count_loop-line_loop_example =
    count_loop-line_loop memory header (λ f. f) ops 1 7 (7 ∷ []) memory-Stands (omega arith)

-- Opcode 0, a length of 2 ^ 32 - 6, which takes five bytes, and the opcode 9.
abbrev loop_memory : List ℕ
loop_memory = 0 ∷ 250 ∷ 255 ∷ 255 ∷ 255 ∷ 15 ∷ 9 ∷ 0 ∷ []

loop_length : read_uleb128 loop_memory 1 ≡ some (4294967290, 6)
unfolding read_uleb128
loop_length = refl

count_loop-stuck_run : count_loop 1000 loop_memory (record header { prog_end = 8 }) 0 ≡ stuck
count_loop-stuck_run =
    count_loop-stuck loop_memory (record header { prog_end = 8 }) 0 6 9 1000 (omega arith)
      (omega arith) (omega arith) refl loop_length refl (omega arith)
