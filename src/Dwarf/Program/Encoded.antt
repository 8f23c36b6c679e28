-- ===== src/Dwarf/Program/Encoded.antt =====
-- Pass 2 runs the bytes of a list of operations as the operations mean.
use ine_debugger.Prelude.{ℕ, ◌+◌, ◌/◌, ◌%◌, ◌^◌, ◌<◌, ◌≤◌, ◌≡◌, refl, arith}
use ine_debugger.Prelude.{Bool, true, false, some, List, [], ◌∷◌, ◌++◌, length, drop}
use ine_debugger.Prelude.Bits.{bit_or_shifted}
use ine_debugger.Prelude.{drop_cons}
use ine_debugger.Prelude.Word.{IsU32, IsU16}
use ine_debugger.Dwarf.Bytes.{read_u16_le, read_u32_le, read_uleb128, read_sleb128}
use ine_debugger.Dwarf.Bytes.Leb.{uleb_bytes, leb_loop-uleb}
use ine_debugger.Dwarf.Bytes.SignedLeb.{sleb_bytes, pattern_of, leb_loop-sleb}
use ine_debugger.Dwarf.Program.{Header, Regs, line_step}
use ine_debugger.Dwarf.Program.{extended, standard, special, read_sized}
use ine_debugger.Dwarf.Program.Ops.{LineOp, op_bytes, IsOp, op_regs, op_row, le16, le32}
use ine_debugger.Dwarf.Program.Ops.{
  copy, advance_pc, advance_line, set_file, set_column, negate_stmt, basic_block,
}
use ine_debugger.Dwarf.Program.Ops.{const_add_pc, fixed_advance_pc, special_op, end_of_sequence}
use ine_debugger.Dwarf.Program.Ops.{set_address16, set_address32, set_segment}

pub uleb_at :
    (mem : List ℕ) (p v : ℕ) (rest : List ℕ)
    → IsU32 v
    → drop p mem ≡ uleb_bytes 4 v ++ rest
    → read_uleb128 mem p ≡ some (v, p + length (uleb_bytes 4 v))
unfolding read_uleb128
uleb_at mem p v rest h e =
    let (s, b, r) = leb_loop-uleb 4 v 0 0 0 rest (omega arith) (omega arith) (omega arith) in
    rw e (ground (arith, r))

-- The length of an extended opcode, which is one group.
pub length_at :
    (mem : List ℕ) (p v : ℕ) (rest : List ℕ)
    → v < 128
    → drop p mem ≡ v ∷ rest
    → read_uleb128 mem p ≡ some (v, p + 1)
unfolding uleb_bytes
length_at mem p v rest h e =
    let one : uleb_bytes 4 v ≡ v ∷ [] = ground arith in
    ground (arith, one, uleb_at mem p v rest (omega arith) (rw one e))

pub sleb_at :
    (mem : List ℕ) (p : ℕ) (neg : Bool) (m : ℕ) (rest : List ℕ)
    → m < 2 ^ 31
    → drop p mem ≡ sleb_bytes 4 neg m ++ rest
    → read_sleb128 mem p ≡ some (pattern_of neg m, p + length (sleb_bytes 4 neg m))
unfolding read_sleb128
sleb_at mem p neg m rest h e =
    let (r, s, b, k, t) =
      leb_loop-sleb 4 0 neg m 0 0 rest refl (omega arith) (omega arith) (omega arith) in
    rw e (ground (arith, k, t))

pub u16_at :
    (mem : List ℕ) (p v : ℕ) (rest : List ℕ)
    → IsU16 v
    → drop p mem ≡ le16 v ++ rest
    → read_u16_le mem p ≡ some v
unfolding read_u16_le
u16_at mem p v rest h e =
    let (e0, d0) = drop_cons mem p _ _ e in
    let (e1, d1) = drop_cons mem (p + 1) _ _ d0 in
    ground (arith, e0, e1, bit_or_shifted 8 (v % 256) (v / 256))

pub u32_at :
    (mem : List ℕ) (p v : ℕ) (rest : List ℕ)
    → IsU32 v
    → drop p mem ≡ le32 v ++ rest
    → read_u32_le mem p ≡ some v
unfolding read_u32_le
u32_at mem p v rest h e =
    let (e0, d0) = drop_cons mem p _ _ e in
    let (e1, d1) = drop_cons mem (p + 1) _ _ d0 in
    let (e2, d2) = drop_cons mem (p + 1 + 1) _ _ d1 in
    let (e3, d3) = drop_cons mem (p + 1 + 1 + 1) _ _ d2 in
    ground (
      arith,
      e0,
      e1,
      e2,
      e3,
      bit_or_shifted 8 (v % 256) (v / 256 % 256),
      bit_or_shifted 16 (v % 65536) (v / 65536 % 256),
      bit_or_shifted 24 (v % 16777216) (v / 16777216),
    )

module _ (mem : List ℕ) (h : Header) (file_map : ℕ → ℕ) where
  -- What a step does that meets an operation.
  abbrev Does : LineOp → ℕ → Regs → Type 0
  Does op p r =
      line_step mem h file_map p r
      ≡ some (p + length (op_bytes op), op_regs h file_map op r, op_row h file_map op r)

  pub line_step_lem :
      (op : LineOp) (p : ℕ) (r : Regs) (rest : List ℕ)
      → 10 ≤ h.opcode_base
      → IsOp h op
      → p + length (op_bytes op) < 2 ^ 32
      → drop p mem ≡ op_bytes op ++ rest
      → Does op p r
  unfolding line_step standard special extended read_sized
  line_step_lem copy p r rest hb ok fits e =
      let (e0, d) = drop_cons mem p _ _ e in ground (arith, e0)
  line_step_lem (advance_pc n) p r rest hb ok fits e =
      let (e0, d) = drop_cons mem p _ _ e in ground (arith, e0, uleb_at mem (p + 1) n rest ok d)
  line_step_lem (advance_line neg m) p r rest hb ok fits e =
      let (e0, d) = drop_cons mem p _ _ e in ground (arith, e0, sleb_at mem (p + 1) neg m rest ok d)
  line_step_lem (set_file n) p r rest hb ok fits e =
      let (e0, d) = drop_cons mem p _ _ e in ground (arith, e0, uleb_at mem (p + 1) n rest ok d)
  line_step_lem (set_column n) p r rest hb ok fits e =
      let (e0, d) = drop_cons mem p _ _ e in ground (arith, e0, uleb_at mem (p + 1) n rest ok d)
  line_step_lem negate_stmt p r rest hb ok fits e =
      let (e0, d) = drop_cons mem p _ _ e in ground (arith, e0)
  line_step_lem basic_block p r rest hb ok fits e =
      let (e0, d) = drop_cons mem p _ _ e in ground (arith, e0)
  line_step_lem const_add_pc p r rest hb ok fits e =
      let (e0, d) = drop_cons mem p _ _ e in ground (arith, e0)
  line_step_lem (fixed_advance_pc n) p r rest hb ok fits e =
      let (e0, d) = drop_cons mem p _ _ e in ground (arith, e0, u16_at mem (p + 1) n rest ok d)
  line_step_lem (special_op n) p r rest hb ok fits e =
      let (e0, d) = drop_cons mem p _ _ e in ground (arith, e0)
  line_step_lem end_of_sequence p r rest hb ok fits e =
      let (e0, d0) = drop_cons mem p _ _ e in
      let (e1, d1) = drop_cons mem (p + 1) _ _ d0 in
      let (e2, d2) = drop_cons mem (p + 1 + 1) _ _ d1 in
      ground (arith, e0, e2, length_at mem (p + 1) 1 _ (omega arith) d0)
  line_step_lem (set_address16 a) p r rest hb ok fits e =
      let (e0, d0) = drop_cons mem p _ _ e in
      let (e1, d1) = drop_cons mem (p + 1) _ _ d0 in
      let (e2, d2) = drop_cons mem (p + 1 + 1) _ _ d1 in
      ground (
        arith,
        e0,
        e2,
        length_at mem (p + 1) 3 _ (omega arith) d0,
        u16_at mem (p + 1 + 1 + 1) a rest ok d2,
      )
  line_step_lem (set_address32 a) p r rest hb ok fits e =
      let (e0, d0) = drop_cons mem p _ _ e in
      let (e1, d1) = drop_cons mem (p + 1) _ _ d0 in
      let (e2, d2) = drop_cons mem (p + 1 + 1) _ _ d1 in
      ground (
        arith,
        e0,
        e2,
        length_at mem (p + 1) 5 _ (omega arith) d0,
        u32_at mem (p + 1 + 1 + 1) a rest ok d2,
      )
  line_step_lem (set_segment true s) p r rest hb ok fits e =
      let (e0, d0) = drop_cons mem p _ _ e in
      let (e1, d1) = drop_cons mem (p + 1) _ _ d0 in
      let (e2, d2) = drop_cons mem (p + 1 + 1) _ _ d1 in
      ground (
        arith,
        e0,
        e2,
        length_at mem (p + 1) 3 _ (omega arith) d0,
        u16_at mem (p + 1 + 1 + 1) s rest ok d2,
      )
  line_step_lem (set_segment false s) p r rest hb ok fits e =
      let (e0, d0) = drop_cons mem p _ _ e in
      let (e1, d1) = drop_cons mem (p + 1) _ _ d0 in
      let (e2, d2) = drop_cons mem (p + 1 + 1) _ _ d1 in
      ground (
        arith,
        e0,
        e2,
        length_at mem (p + 1) 3 _ (omega arith) d0,
        u16_at mem (p + 1 + 1 + 1) s rest ok d2,
      )
