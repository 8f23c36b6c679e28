-- ===== src/Doscalls/ExitRun.antt =====
-- native/doscalls.c: runDosExitList. The list has its nodes' addresses, since the loop keeps one
-- while application code runs, which may change the list.
mod Runs
use ine_debugger.Prelude.{ℕ, zero, suc, ◌≡◌, refl, ap, ◌∙◌, arith, All, ◌≢◌}
use ine_debugger.Prelude.{
  Bool, true, false, Option, none, some, List, [], ◌∷◌, ◌==◌, if◌then◌else◌, length,
}
use ine_debugger.Prelude.Memory.{Outcome, ok, crash, stuck}
use ine_debugger.Doscalls.ExitList.{ExitListItem}

abbrev pub Node : Type 0
Node = ℕ × ExitListItem

abbrev pub head_of : List Node → Option ℕ
head_of [] = none
head_of (node ∷ nodes) = some node.0

-- The node at an address, with what it links to; a node that was freed is not there.
unfoldable pub node_at : ℕ → List Node → Option (ExitListItem × List Node)
node_at a [] = none
node_at a (node ∷ nodes) =
    let further = node_at a nodes in if node.0 == a then some (node.1, nodes) else further

-- `call`: what the function of an item does to the list and to the rest of the world.
module _ {W : Type 0} (call : ℕ → List Node × W → List Node × W) where
  -- The loop, on fuel, from the node kept; GExitList and the world afterwards.
  unfoldable pub run_items : ℕ → Option ℕ → List Node × W → Outcome (List Node × W)
  unfolding node_at
  run_items fuel none state = ok state
  run_items zero (some a) state = stuck
  run_items (suc fuel) (some a) state = elim (node_at a state.0) [
    | none ↦ crash
    | some found ↦ run_items fuel (head_of found.1) (call found.0.fn (found.1, state.1))
  ]

  unfoldable pub run_dos_exit_list : ℕ → List Node × W → Outcome (List Node × W)
  unfolding run_items
  run_dos_exit_list fuel state = run_items fuel (head_of state.0) state

-- What functions that leave the list alone make of the world, in the order of the list.
abbrev pub run_all : {W : Type 0} → (ℕ → W → W) → List Node → W → W
run_all act [] w = w
run_all act (node ∷ nodes) w = run_all act nodes (act node.1.fn w)

node_at_head :
    (node : Node) (nodes : List Node) → node_at node.0 (node ∷ nodes) ≡ some (node.1, nodes)
unfolding node_at
node_at_head node nodes = ground arith

module _ {W : Type 0} (act : ℕ → W → W) where
  run_items-run_all :
      (nodes : List Node) (w : W)
      → run_items (λ fn state. (state.0, act fn state.1)) (length nodes) (head_of nodes) (nodes, w)
        ≡ ok ([], run_all act nodes w)
  unfolding run_items
  run_items-run_all [] w = refl
  run_items-run_all (node ∷ nodes) w =
      rw (run_items, node_at_head node nodes) (run_items-run_all nodes (act node.1.fn w))

  -- Where no function changes the list, each is run once, in the order of the list, within one
  -- round for each; then the list is empty.
  pub run_dos_exit_list-run_all :
      (nodes : List Node) (w : W)
      → run_dos_exit_list (λ fn state. (state.0, act fn state.1)) (length nodes) (nodes, w)
        ≡ ok ([], run_all act nodes w)
  unfolding run_dos_exit_list
  run_dos_exit_list-run_all nodes w = run_items-run_all nodes w
