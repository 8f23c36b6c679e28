-- ===== src/Lx/Entries/Runs.antt =====
-- lx_loader.c: the exports of a small entry table of an LX module.
use ine_debugger.Lx.Bundles.{count_bundles}
use ine_debugger.Lx.{Object}
use ine_debugger.Lx.Entries.{count_exports, load_exports, load_bundle, kind_of, set_up_exports}
use ine_debugger.Lx.Entries.Room.{Filled, load_exports-count_exports}
use ine_debugger.Lx.Entries.Table.{Bundle, gap, bundle, Written, table_bytes, table_exports}
use ine_debugger.Lx.Entries.Passes.{set_up_exports-table_bytes}
use ine_debugger.Prelude.{ℕ, ◌+◌, ◌≡◌, refl, arith, true, false, none, some, List, [], ◌∷◌, All}
use ine_debugger.Prelude.Memory.{ok, load8}

abbrev code : Object
code = record { addr = 0x10000; alias = 0xffff }

abbrev objects : List Object
objects = record { addr = 0x40000; alias = 0xffff } ∷ code ∷ []

-- Ordinals 1 and 5 are in the second object; 2 to 4 are not used.
abbrev bundles : List Bundle
bundles = bundle true 2 code ((0, 0x20) ∷ []) ∷ gap 3 ∷ bundle false 2 code ((1, 0x345) ∷ []) ∷ []

bundles-Written : All (Written objects) bundles
bundles-Written = (
  (omega arith, omega arith, omega arith, refl, (omega arith, tt)),
  (omega arith, ((omega arith, omega arith, omega arith, refl, (omega arith, tt)), tt)),
)

abbrev table : List ℕ
table = table_bytes bundles

set_up_exports-table_bytes_example :
    set_up_exports table objects 9 0 ≡ ok (some (table_exports 1 bundles))
set_up_exports-table_bytes_example =
    set_up_exports-table_bytes bundles table objects [] 9 0 bundles-Written (omega arith) refl

meant_run :
    table_exports 1 bundles
    ≡ record { ordinal = 1; name = none; addr = 0x10020; object = some code }
      ∷ record { ordinal = 5; name = none; addr = 0x10345; object = some code }
      ∷ []
meant_run = refl

counted : count_exports 9 table 0 0 ≡ ok 2
unfolding count_bundles load8
counted = refl

load_exports-count_exports_example :
    (load_exports table objects 9 0 1 (2 + 7) ≡ load_exports table objects 9 0 1 2)
    × Filled 2 (load_exports table objects 9 0 1 2)
load_exports-count_exports_example = load_exports-count_exports table objects 9 0 1 2 7 counted

-- A bundle of forwarders makes the load fail.
forwarder_run : set_up_exports (1 ∷ 4 ∷ 0 ∷ 0 ∷ 0 ∷ 0 ∷ 0 ∷ 0 ∷ 0 ∷ 0 ∷ []) objects 9 0 ≡ ok none
unfolding set_up_exports count_bundles load_exports load_bundle kind_of load8
forwarder_run = refl
