-- ===== src/Dwarf/Program/Hang.antt =====
-- An extended opcode may send the pointer back to itself.
use ine_debugger.Prelude.{ℕ, zero, suc, ◌+◌, ◌-◌, ◌<◌, ◌≡◌, refl, arith}
use ine_debugger.Prelude.{some, List, get_elem?}
use ine_debugger.Prelude.Word.{IsU32}
use ine_debugger.Dwarf.Bytes.{read_uleb128}
use ine_debugger.Dwarf.Program.{Header, count_loop, count_step, count_extended, on, stuck}

count_step_back :
    (mem : List ℕ) (h : Header) (p q sub : ℕ)
    → q < h.prog_end
    → p < q
    → IsU32 (q + 1)
    → get_elem? mem p ≡ some 0
    → read_uleb128 mem (p + 1) ≡ some (4294967296 - (q - p), q)
    → get_elem? mem q ≡ some sub
    → 1 < sub
    → count_step mem h p ≡ some (on p 0)
unfolding count_step count_extended
count_step_back mem h p q sub before pos fits e0 e1 e2 one = ground (arith, e0, e1, e2)

-- An extended opcode at `p` that is not an end of sequence, with a length of 2 ^ 32 less the
-- bytes from `p` to that length's end: pass 1 never ends, whatever the fuel.
pub count_loop-stuck :
    (mem : List ℕ) (h : Header) (p q sub fuel : ℕ)
    → q < h.prog_end
    → p < q
    → IsU32 (q + 1)
    → get_elem? mem p ≡ some 0
    → read_uleb128 mem (p + 1) ≡ some (4294967296 - (q - p), q)
    → get_elem? mem q ≡ some sub
    → 1 < sub
    → count_loop fuel mem h p ≡ stuck
unfolding count_loop
count_loop-stuck mem h p q sub zero before pos fits e0 e1 e2 one = refl
count_loop-stuck mem h p q sub (suc fuel) before pos fits e0 e1 e2 one =
    let back = count_step_back mem h p q sub before pos fits e0 e1 e2 one in
    let ih = count_loop-stuck mem h p q sub fuel before pos fits e0 e1 e2 one in
    ground (arith, back, ih)
