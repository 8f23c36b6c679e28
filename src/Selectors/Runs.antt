-- ===== src/Selectors/Runs.antt =====
-- Runs of the selector code, and its theorems at concrete inputs.
use ine_debugger.Prelude.{ℕ, ◌+◌, ◌-◌, ◌*◌, ◌≤◌, ◌<◌, ◌/◌, ◌%◌, ◌≡◌, ◌≢◌, ◌⊎◌, refl, arith}
use ine_debugger.Prelude.{Bool, true, false, none, some, [], ◌∷◌}
use ine_debugger.Selectors.{UserDesc, Loader, update, tiled, scan, allocate_selector, free_selector}
use ine_debugger.Selectors.{map_new, find_untiled, find_selector, convert_32_to_1616}
use ine_debugger.Selectors.{convert_1616_to_32, stack_rounds, init_os2_stack_segments}
use ine_debugger.Selectors.Scan.{Holds}
use ine_debugger.Selectors.Find.{with_tile, find_selector-Holds}
use ine_debugger.Selectors.Table.{IsTable, find_selector-IsTable}
use ine_debugger.Selectors.Table.{find_selector_same_tile}
use ine_debugger.Selectors.Translate.{convert_1616_to_32-convert_32_to_1616, convert_low_address}
use ine_debugger.Selectors.Stack.{init_os2_stack_segments_tiles, init_os2_stack_segments_undo}

program : Unit {0}
unfolding tiled scan allocate_selector free_selector map_new find_untiled find_selector
    convert_32_to_1616 convert_1616_to_32 stack_rounds init_os2_stack_segments
program = tt

abbrev granted : UserDesc → Bool
granted d = true

abbrev denied : UserDesc → Bool
denied d = false

abbrev empty : Loader
empty = record {
  ldt = λ j. 0;
  loaded_modules = (record { addr = 0x2300_0000; size = 0x1000; exec = true } ∷ []) ∷ [];
}

empty-IsTable : IsTable empty
empty-IsTable = record {
  aligned = λ j. refl;
  below = λ j. omega arith;
  distinct = λ i j hi hj u e. absurd (u refl);
}

-- Above 512 MB the last free slot is taken, below it the tiled one.
high :
    find_selector granted 0x2300_0010 none empty
    ≡ some (some (8191, 0x10), with_tile empty 0x2300_0010 8191)
unfolding program
high = refl

low :
    find_selector granted 0x12_3456 none empty
    ≡ some (some (0x12, 0x3456), with_tile empty 0x12_3456 0x12)
unfolding program
low = refl

refusal : find_selector denied 0x12_3456 none empty ≡ some (none, empty)
unfolding program
refusal = refl

far_high :
    convert_32_to_1616 granted 0x2300_0010 empty
    ≡ some (0xFFFF_0010, with_tile empty 0x2300_0010 8191)
unfolding program
far_high = refl

far_low : convert_32_to_1616 granted 0x2000 empty ≡ some (0x7_2000, with_tile empty 0x2000 0)
unfolding program
far_low = refl

find_selector-Holds_example :
    Holds (with_tile empty 0x2300_0010 8191).ldt 0x2300_0010 8191 0x10
    × ((j : ℕ) → empty.ldt j ≢ 0 → (with_tile empty 0x2300_0010 8191).ldt j ≡ empty.ldt j)
find_selector-Holds_example =
    find_selector-Holds granted 0x2300_0010 none empty (with_tile empty 0x2300_0010 8191) 8191 0x10
      (omega arith) high

find_selector-IsTable_example : IsTable (with_tile empty 0x2300_0010 8191)
find_selector-IsTable_example =
    find_selector-IsTable granted 0x2300_0010 none empty (with_tile empty 0x2300_0010 8191)
      (some (8191, 0x10)) (omega arith) empty-IsTable high

find_selector_same_tile_example :
    find_selector granted 0x12_FFFF (some true) (with_tile empty 0x12_3456 0x12)
    ≡ some (some (0x12, 0xFFFF), with_tile empty 0x12_3456 0x12)
find_selector_same_tile_example =
    find_selector_same_tile granted 0x12_3456 0x12_FFFF none (some true) empty
      (with_tile empty 0x12_3456 0x12) 0x12 0x3456 (omega arith) (omega arith) refl empty-IsTable
      low

round_trip_example :
    convert_1616_to_32 (with_tile empty 0x2300_0010 8191) 0xFFFF_0010 ≡ some 0x2300_0010
round_trip_example =
    convert_1616_to_32-convert_32_to_1616 granted 0x2300_0010 0xFFFF_0010 empty
      (with_tile empty 0x2300_0010 8191) (omega arith) (omega arith) far_high (omega arith)

convert_low_address_run : convert_1616_to_32 (with_tile empty 0x2000 0) 0x7_2000 ≡ none
convert_low_address_run =
    convert_low_address granted 0x2000 0x7_2000 empty (with_tile empty 0x2000 0) empty-IsTable
      (omega arith) (omega arith) far_low (omega arith)

init_os2_stack_segments_tiles_example :
    (t : Loader) × (init_os2_stack_segments granted 0x12_3456 0x2_0000 false empty ≡ some t)
    × ((a : ℕ)
        → 0x12_3456 ≤ a
        → a < 0x12_3456 + 0x2_0000
        → empty.ldt (a / 0x10000) ≡ 0
        → t.ldt (a / 0x10000) ≡ a - a % 0x10000)
    × ((j : ℕ) → empty.ldt j ≢ 0 → t.ldt j ≡ empty.ldt j)
    × ((j : ℕ)
        → (j < 0x12_3456 / 0x10000) ⊎ (0x12_3456 + 0x2_0000 ≤ j * 0x10000)
        → t.ldt j ≡ empty.ldt j)
init_os2_stack_segments_tiles_example =
    init_os2_stack_segments_tiles granted (λ d. refl) 0x12_3456 0x2_0000 empty (omega arith)

abbrev one_tile : Loader
one_tile = with_tile empty 0x12_3456 0x12

one_tile_run : init_os2_stack_segments granted 0x12_3456 0x100 false empty ≡ some one_tile
unfolding program
one_tile_run = refl

init_os2_stack_segments_undo_run :
    (u : Loader) × (init_os2_stack_segments granted 0x12_3456 0x100 true one_tile ≡ some u)
    × ((j : ℕ) → u.ldt j ≡ empty.ldt j)
init_os2_stack_segments_undo_run =
    init_os2_stack_segments_undo granted (λ d. refl) 0x12_3456 0x100 empty one_tile (omega arith)
      (omega arith) (λ a lo hi. refl) one_tile_run

abbrev freed : Loader
freed = record one_tile { ldt = update one_tile.ldt 0x12 0 }

freed_run : free_selector granted 0x12 one_tile ≡ some freed
unfolding program
freed_run = refl
