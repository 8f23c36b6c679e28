-- ===== src/Lx/Exports/Runs.antt =====
-- lx_loader.c: exports on concrete tables.
use ine_debugger.Prelude.{leb, if◌then◌else◌}
use ine_debugger.Prelude.{ℕ, ◌+◌, ◌≡◌, refl, Option, none, some, List, [], ◌∷◌}
use ine_debugger.Prelude.Memory.{Outcome, ok, crash}
use ine_debugger.Lx.{Export}
use ine_debugger.Lx.Exports.{get_module_proc_addr_by_name}
use ine_debugger.Lx.Exports.Laws.{Entry, Found}
use ine_debugger.Lx.Exports.Laws.{by_name-Found}

abbrev nameless : Export
nameless = record { ordinal = 1; name = none; addr = 0x1000; object = none }

abbrev bridge : Export
bridge = record {
  ordinal = 2;
  name = some (66 ∷ []);
  addr = 0x2000;
  object = some (record { addr = 0x2000; alias = 15 });
}

abbrev two_entries : List Entry
two_entries =
    record { name = 77 ∷ []; ordinal = 0 } ∷ record { name = 65 ∷ 66 ∷ []; ordinal = 1 } ∷ []

-- Pointers can be read from 0x2000 on.
abbrev deref_1 : ℕ → Outcome ℕ
deref_1 p = if leb 0x2000 p then ok (p + 1) else crash

by_name-Found_example :
    (r : Option (ℕ × Export)) × (get_module_proc_addr_by_name deref_1 (bridge ∷ []) (66 ∷ [])
      ≡ ok r)
    × Found deref_1 (66 ∷ []) (bridge ∷ []) r
by_name-Found_example =
    by_name-Found deref_1 (bridge ∷ []) (66 ∷ []) ((66 ∷ [], refl), tt) ((0x2001, refl), tt)

-- An export that has an ordinal only stops every lookup by name that comes to it.
nameless_run : get_module_proc_addr_by_name deref_1 (nameless ∷ bridge ∷ []) (66 ∷ []) ≡ crash
unfolding get_module_proc_addr_by_name
nameless_run = refl

-- A bridge at an address that nothing is mapped at crashes the lookup.
abbrev low_bridge : Export
low_bridge = record bridge { addr = 0x10 }

low_bridge_run : get_module_proc_addr_by_name deref_1 (low_bridge ∷ []) (66 ∷ []) ≡ crash
unfolding get_module_proc_addr_by_name
low_bridge_run = refl
