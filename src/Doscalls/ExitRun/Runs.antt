-- ===== src/Doscalls/ExitRun/Runs.antt =====
-- native/doscalls.c: functions that run when the process ends, on concrete lists.
use ine_debugger.Prelude.{ℕ, ◌+◌, ◌*◌, ◌≡◌, refl, List, [], ◌∷◌, ◌==◌, if◌then◌else◌}
use ine_debugger.Prelude.Memory.{ok}
use ine_debugger.Doscalls.ExitRun.{Node, run_dos_exit_list}

abbrev two_nodes : List Node
two_nodes = (100, record { fn = 1; priority = 0 }) ∷ (200, record { fn = 2; priority = 5 }) ∷ []

-- The digits of the world are the functions that have run.
abbrev note_down : ℕ → ℕ → ℕ
note_down fn w = w * 10 + fn

in_order_run :
    run_dos_exit_list (λ fn state. (state.0, note_down fn state.1)) 2 (two_nodes, 0) ≡ ok ([], 12)
unfolding run_dos_exit_list
in_order_run = refl

-- Function 1 adds function 3 in front of the list: it is taken off without having run.
abbrev adding : ℕ → List Node × ℕ → List Node × ℕ
adding fn state = (
  if fn == 1 then (300, record { fn = 3; priority = 0 }) ∷ state.0 else state.0,
  note_down fn state.1,
)

lost_item_run : run_dos_exit_list adding 3 (two_nodes, 0) ≡ ok ([], 12)
unfolding run_dos_exit_list
lost_item_run = refl
