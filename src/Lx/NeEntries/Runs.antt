-- ===== src/Lx/NeEntries/Runs.antt =====
-- lx_loader.c: the exports of a small entry table of an NE module.
use ine_debugger.Lx.Bundles.{count_bundles}
use ine_debugger.Lx.{Object}
use ine_debugger.Lx.Entries.{bundle_entries}
use ine_debugger.Lx.NeEntries.{
  count_exports, load_exports, load_bundle, movable_entries, fixed_entries, kind_of, set_up_exports,
}
use ine_debugger.Lx.NeEntries.Room.{Within, ne_load_exports-count_exports}
use ine_debugger.Prelude.{ℕ, ◌+◌, ◌≡◌, refl, some, none, List, [], ◌∷◌}
use ine_debugger.Prelude.Memory.{ok, load8, load16}

abbrev segments : List Object
segments = record { addr = 0x8800000; alias = 17 } ∷ record { addr = 0x8810000; alias = 18 } ∷ []

-- A movable entry of segment 2, an ordinal that is not used, and an entry of segment 1.
abbrev table : List ℕ
table = 1 ∷ 0xff ∷ 3 ∷ 0xcd ∷ 0x3f ∷ 2 ∷ 0x34 ∷ 0x12 ∷ 1 ∷ 0 ∷ 1 ∷ 1 ∷ 3 ∷ 0x10 ∷ 0 ∷ 0 ∷ []

counted : count_exports 9 table 0 0 ≡ ok 3
unfolding count_bundles load8
counted = refl

ne_load_exports-count_exports_example :
    (load_exports table segments 9 0 1 (3 + 4) ≡ load_exports table segments 9 0 1 3)
    × Within 3 (load_exports table segments 9 0 1 3)
ne_load_exports-count_exports_example =
    ne_load_exports-count_exports table segments 9 0 1 3 4 counted

loaded_run :
    set_up_exports table segments 9 16 0
    ≡ ok (
        record {
          ordinal = 1;
          name = none;
          addr = 0x8811234;
          object = some (record { addr = 0x8810000; alias = 18 });
        }
        ∷ record {
          ordinal = 3;
          name = none;
          addr = 0x8800010;
          object = some (record { addr = 0x8800000; alias = 17 });
        }
        ∷ [])
unfolding set_up_exports count_bundles load_exports load_bundle movable_entries fixed_entries
    bundle_entries kind_of load8 load16
loaded_run = refl
