-- ===== src/Ldt/Runs.antt =====
-- The theorems on the debugger's selectors at a concrete table.
use ine_debugger.Prelude.{ℕ, ◌≤◌, ◌≡◌, refl, arith, true, false, ◌==◌, if◌then◌else◌}
use ine_debugger.Prelude.{some, Bool-cases, inl, inr}
use ine_debugger.Prelude.Word.{IsU32}
use ine_debugger.Ldt.{DebugSharedState, ldt_selector_to_linear, ldt_linear_to_selector}
use ine_debugger.Ldt.Inverse.{ldt_selector_to_linear-ldt_linear_to_selector}

abbrev table : DebugSharedState
table = record {
  selectors = λ i. if i == 2 then 0x20000 else 0;
  limit = λ i. if i == 2 then 0x10000 else 0;
  is_code = λ i. true;
  is_32bit = λ i. false;
}

short : (i : ℕ) → (table.limit i ≤ 0x10000) × IsU32 (table.selectors i)
short i = elim (Bool-cases (i == 2)) [
  | inl here ↦ (ground (arith, here), ground (arith, here))
  | inr other ↦ (ground (arith, other), ground (arith, other))
]

found : ldt_linear_to_selector (some table) 0x20005 ≡ some (23, 5)
unfolding ldt_linear_to_selector
found = refl

ldt_selector_to_linear-ldt_linear_to_selector_example :
    ldt_selector_to_linear (some table) 23 5 ≡ 0x20005
ldt_selector_to_linear-ldt_linear_to_selector_example =
    ldt_selector_to_linear-ldt_linear_to_selector table 0x20005 23 5 (omega arith) short found
