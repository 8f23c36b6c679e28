-- ===== src/Dwarf/Program/Count.antt =====
-- Both passes over the bytes of a list of operations: pass 1 makes room for every row of pass 2.
use mathlib.Core.List.{append_assoc}
use ine_debugger.Prelude.{ℕ, zero, suc, ◌+◌, ◌^◌, ◌<◌, ◌≤◌, ◌≡◌, refl, ◌∙◌, arith}
use ine_debugger.Prelude.{true, false, some, List, [], ◌∷◌, ◌++◌, length, All, drop}
use ine_debugger.Prelude.{length-append, ◌==◌, if◌then◌else◌, Option-cases, inl, inr}
use ine_debugger.Dwarf.Program.{Header, Regs, Row, initial, line_loop, done}
use ine_debugger.Dwarf.Program.{count_step, count_extended, count_loop, on}
use ine_debugger.Dwarf.Program.Ops.{LineOp, op_bytes, IsOp, op_regs, op_row, op_rows, encode_ops}
use ine_debugger.Dwarf.Program.Ops.{
  copy, advance_pc, advance_line, set_file, set_column, negate_stmt, basic_block,
}
use ine_debugger.Dwarf.Program.Ops.{const_add_pc, fixed_advance_pc, special_op, end_of_sequence}
use ine_debugger.Dwarf.Program.Ops.{set_address16, set_address32, set_segment}
use ine_debugger.Prelude.{drop_cons, drop_append}
use ine_debugger.Dwarf.Program.Encoded.{line_step_lem, uleb_at, sleb_at, length_at}

-- Operations as they stand in memory, up to the end of the program.
abbrev pub Stands : List ℕ → Header → ℕ → List LineOp → List ℕ → Type 0
Stands mem h p ops rest =
    (10 ≤ h.opcode_base)
    × (h.prog_end ≡ p + length (encode_ops ops))
    × (h.prog_end < 2 ^ 32)
    × All (IsOp h) ops
    × (drop p mem ≡ encode_ops ops ++ rest)

op_bytes-nonempty : (op : LineOp) → 1 ≤ length (op_bytes op)
op_bytes-nonempty copy = omega arith
op_bytes-nonempty (advance_pc n) = omega arith
op_bytes-nonempty (advance_line neg m) = omega arith
op_bytes-nonempty (set_file n) = omega arith
op_bytes-nonempty (set_column n) = omega arith
op_bytes-nonempty negate_stmt = omega arith
op_bytes-nonempty basic_block = omega arith
op_bytes-nonempty const_add_pc = omega arith
op_bytes-nonempty (fixed_advance_pc n) = omega arith
op_bytes-nonempty (special_op n) = omega arith
op_bytes-nonempty end_of_sequence = omega arith
op_bytes-nonempty (set_address16 a) = omega arith
op_bytes-nonempty (set_address32 a) = omega arith
op_bytes-nonempty (set_segment old s) = omega arith

-- One operation is done, and the others stand behind it.
next-Stands :
    (mem : List ℕ) (h : Header) (p : ℕ) (op : LineOp) (ops : List LineOp) (rest : List ℕ)
    → Stands mem h p (op ∷ ops) rest
    → (p < h.prog_end)
      × (p + length (op_bytes op) ≤ h.prog_end)
      × (p + length (op_bytes op) < 2 ^ 32)
      × (drop p mem ≡ op_bytes op ++ (encode_ops ops ++ rest))
      × IsOp h op
      × Stands mem h (p + length (op_bytes op)) ops rest
next-Stands mem h p op ops rest (hb, he, small, (ok, oks), e) =
    let sizes = length-append (op_bytes op) (encode_ops ops) in
    let here : drop p mem ≡ op_bytes op ++ (encode_ops ops ++ rest) =
      e ∙ append_assoc (op_bytes op) (encode_ops ops) rest in
    (
      omega (arith, sizes, op_bytes-nonempty op),
      omega (arith, sizes),
      omega (arith, sizes),
      here,
      ok,
      (
        hb,
        omega (arith, sizes),
        small,
        oks,
        drop_append (op_bytes op) mem p (encode_ops ops ++ rest) here,
      ),
    )

length_zero : (xs : List Row) → length xs ≤ 0 → xs ≡ []
length_zero [] h = refl
length_zero (x ∷ xs) h = absurd (omega arith)

-- What pass 1 adds for an operation.
abbrev op_count : LineOp → ℕ
op_count (set_address16 a) = 0
op_count (set_address32 a) = 0
op_count (set_segment old s) = 0
op_count other = 1

abbrev ops_count : List LineOp → ℕ
ops_count [] = 0
ops_count (op ∷ ops) = op_count op + ops_count ops

module _ (mem : List ℕ) (h : Header) (file_map : ℕ → ℕ) where
  line_loop-encode_ops :
      (ops : List LineOp) (p fuel room : ℕ) (r : Regs) (rest : List ℕ)
      → Stands mem h p ops rest
      → length ops < fuel
      → length (op_rows h file_map ops r) ≤ room
      → line_loop fuel mem h file_map p r room ≡ done (op_rows h file_map ops r)
  unfolding line_loop
  line_loop-encode_ops ops p zero room r rest st lt fits = absurd (omega arith)
  line_loop-encode_ops [] p (suc fuel) room r rest (hb, he, small, oks, e) lt fits =
      ground (arith, he)
  line_loop-encode_ops (op ∷ ops) p (suc fuel) zero r rest st lt fits =
      let none_left = length_zero (op_rows h file_map (op ∷ ops) r) fits in
      ground (arith, none_left)
  line_loop-encode_ops (op ∷ ops) p (suc fuel) (suc room) r rest st lt fits =
      let (before, ends, small, here, ok, st') = next-Stands mem h p op ops rest st in
      let step = line_step_lem mem h file_map op p r (encode_ops ops ++ rest) st.0 ok small here in
      let r' = op_regs h file_map op r in
      let p' = p + length (op_bytes op) in
      elim (Option-cases (op_row h file_map op r)) [
        | inl nothing ↦
            let ih =
              line_loop-encode_ops ops p' fuel (suc room) r' rest st' (omega arith)
                (ground (arith, nothing)) in
            ground (arith, before, step, nothing, ih)
        | inr (row, stored) ↦
            let ih =
              line_loop-encode_ops ops p' fuel room r' rest st' (omega arith)
                (ground (arith, stored)) in
            ground (arith, before, step, stored, ih)
      ]

  extended_lem :
      (size sub p : ℕ) (rest : List ℕ)
      → 1 ≤ size
      → size < 128
      → p + (2 + size) ≤ h.prog_end
      → h.prog_end < 2 ^ 32
      → (sub ≡ 1 → size ≡ 1)
      → drop p mem ≡ 0 ∷ size ∷ sub ∷ rest
      → count_step mem h p ≡ some (on (p + (2 + size)) (if sub == 1 then 1 else 0))
  unfolding count_step count_extended
  extended_lem size sub p rest hs small ends fits one e =
      let (e0, d0) = drop_cons mem p _ _ e in
      let (e1, d1) = drop_cons mem (p + 1) _ _ d0 in
      let (e2, d2) = drop_cons mem (p + 1 + 1) _ _ d1 in
      ground (arith, e0, e2, length_at mem (p + 1) size _ small d0)

  count_step_lem :
      (op : LineOp) (p : ℕ) (rest : List ℕ)
      → 10 ≤ h.opcode_base
      → IsOp h op
      → p + length (op_bytes op) ≤ h.prog_end
      → h.prog_end < 2 ^ 32
      → drop p mem ≡ op_bytes op ++ rest
      → count_step mem h p ≡ some (on (p + length (op_bytes op)) (op_count op))
  unfolding count_step count_extended
  count_step_lem copy p rest hb ok ends fits e =
      let (e0, d) = drop_cons mem p _ _ e in ground (arith, e0)
  count_step_lem (advance_pc n) p rest hb ok ends fits e =
      let (e0, d) = drop_cons mem p _ _ e in ground (arith, e0, uleb_at mem (p + 1) n rest ok d)
  count_step_lem (advance_line neg m) p rest hb ok ends fits e =
      let (e0, d) = drop_cons mem p _ _ e in ground (arith, e0, sleb_at mem (p + 1) neg m rest ok d)
  count_step_lem (set_file n) p rest hb ok ends fits e =
      let (e0, d) = drop_cons mem p _ _ e in ground (arith, e0, uleb_at mem (p + 1) n rest ok d)
  count_step_lem (set_column n) p rest hb ok ends fits e =
      let (e0, d) = drop_cons mem p _ _ e in ground (arith, e0, uleb_at mem (p + 1) n rest ok d)
  count_step_lem negate_stmt p rest hb ok ends fits e =
      let (e0, d) = drop_cons mem p _ _ e in ground (arith, e0)
  count_step_lem basic_block p rest hb ok ends fits e =
      let (e0, d) = drop_cons mem p _ _ e in ground (arith, e0)
  count_step_lem const_add_pc p rest hb ok ends fits e =
      let (e0, d) = drop_cons mem p _ _ e in ground (arith, e0)
  count_step_lem (fixed_advance_pc n) p rest hb ok ends fits e =
      let (e0, d) = drop_cons mem p _ _ e in ground (arith, e0)
  count_step_lem (special_op n) p rest hb ok ends fits e =
      let (e0, d) = drop_cons mem p _ _ e in ground (arith, e0)
  count_step_lem end_of_sequence p rest hb ok ends fits e =
      extended_lem 1 1 p rest (omega arith) (omega arith) ends fits (λ q. refl) e
  count_step_lem (set_address16 a) p rest hb ok ends fits e =
      extended_lem 3 2 p _ (omega arith) (omega arith) ends fits (λ q. absurd (omega arith)) e
  count_step_lem (set_address32 a) p rest hb ok ends fits e =
      extended_lem 5 2 p _ (omega arith) (omega arith) ends fits (λ q. absurd (omega arith)) e
  count_step_lem (set_segment true s) p rest hb ok ends fits e =
      extended_lem 3 4 p _ (omega arith) (omega arith) ends fits (λ q. absurd (omega arith)) e
  count_step_lem (set_segment false s) p rest hb ok ends fits e =
      extended_lem 3 0x80 p _ (omega arith) (omega arith) ends fits (λ q. absurd (omega arith)) e

  count_loop-encode_ops :
      (ops : List LineOp) (p fuel : ℕ) (rest : List ℕ)
      → Stands mem h p ops rest
      → length ops < fuel
      → count_loop fuel mem h p ≡ done (ops_count ops)
  unfolding count_loop
  count_loop-encode_ops ops p zero rest st lt = absurd (omega arith)
  count_loop-encode_ops [] p (suc fuel) rest (hb, he, small, oks, e) lt = ground (arith, he)
  count_loop-encode_ops (op ∷ ops) p (suc fuel) rest st lt =
      let (before, ends, small, here, ok, st') = next-Stands mem h p op ops rest st in
      let step = count_step_lem op p (encode_ops ops ++ rest) st.0 ok ends st.2 here in
      let ih = count_loop-encode_ops ops (p + length (op_bytes op)) fuel rest st' (omega arith) in
      ground (arith, before, step, ih)

rows_fit :
    (h : Header) (file_map : ℕ → ℕ) (ops : List LineOp) (r : Regs)
    → length (op_rows h file_map ops r) ≤ ops_count ops
rows_fit h file_map [] r = omega arith
rows_fit h file_map (copy ∷ ops) r =
    omega (arith, rows_fit h file_map ops (op_regs h file_map copy r))
rows_fit h file_map (advance_pc n ∷ ops) r =
    omega (arith, rows_fit h file_map ops (op_regs h file_map (advance_pc n) r))
rows_fit h file_map (advance_line neg m ∷ ops) r =
    omega (arith, rows_fit h file_map ops (op_regs h file_map (advance_line neg m) r))
rows_fit h file_map (set_file n ∷ ops) r =
    omega (arith, rows_fit h file_map ops (op_regs h file_map (set_file n) r))
rows_fit h file_map (set_column n ∷ ops) r =
    omega (arith, rows_fit h file_map ops (op_regs h file_map (set_column n) r))
rows_fit h file_map (negate_stmt ∷ ops) r = omega (arith, rows_fit h file_map ops r)
rows_fit h file_map (basic_block ∷ ops) r = omega (arith, rows_fit h file_map ops r)
rows_fit h file_map (const_add_pc ∷ ops) r =
    omega (arith, rows_fit h file_map ops (op_regs h file_map const_add_pc r))
rows_fit h file_map (fixed_advance_pc n ∷ ops) r =
    omega (arith, rows_fit h file_map ops (op_regs h file_map (fixed_advance_pc n) r))
rows_fit h file_map (special_op n ∷ ops) r =
    omega (arith, rows_fit h file_map ops (op_regs h file_map (special_op n) r))
rows_fit h file_map (end_of_sequence ∷ ops) r =
    omega (arith, rows_fit h file_map ops (op_regs h file_map end_of_sequence r))
rows_fit h file_map (set_address16 a ∷ ops) r =
    omega (arith, rows_fit h file_map ops (op_regs h file_map (set_address16 a) r))
rows_fit h file_map (set_address32 a ∷ ops) r =
    omega (arith, rows_fit h file_map ops (op_regs h file_map (set_address32 a) r))
rows_fit h file_map (set_segment old s ∷ ops) r =
    omega (arith, rows_fit h file_map ops (op_regs h file_map (set_segment old s) r))

-- Where the bytes of operations stand in memory up to the end of the program, under a prologue
-- with at least the nine standard opcodes and below 2 ^ 32, pass 1 ends with a count, and pass 2,
-- with room for that many rows, ends with exactly the rows that the operations mean.
pub count_loop-line_loop :
    (mem : List ℕ) (h : Header) (file_map : ℕ → ℕ) (ops : List LineOp) (p fuel : ℕ) (rest : List ℕ)
    → Stands mem h p ops rest
    → length ops < fuel
    → (n : ℕ) × (count_loop fuel mem h p ≡ done n)
      × (line_loop fuel mem h file_map p initial n ≡ done (op_rows h file_map ops initial))
count_loop-line_loop mem h file_map ops p fuel rest st lt = (
  ops_count ops,
  count_loop-encode_ops mem h file_map ops p fuel rest st lt,
  line_loop-encode_ops mem h file_map ops p fuel (ops_count ops) initial rest st lt
      (rows_fit h file_map ops initial),
)
