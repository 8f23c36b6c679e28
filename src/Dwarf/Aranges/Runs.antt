-- ===== src/Dwarf/Aranges/Runs.antt =====
-- The theorems on address ranges at a concrete section.
use ine_debugger.Prelude.{ℕ, ◌≡◌, refl, arith, ◌+◌, some, List, [], ◌∷◌, length}
use ine_debugger.Prelude.Word.{add32}
use ine_debugger.Dwarf.Bytes.{read_u32_le}
use ine_debugger.Dwarf.Program.{done, stuck}
use ine_debugger.Dwarf.Lookup.{Range}
use ine_debugger.Dwarf.Aranges.{parse_debug_aranges, count_ranges, unit_head}
use ine_debugger.Dwarf.Aranges.Passes.{parse_debug_aranges-count_ranges}
use ine_debugger.Dwarf.Aranges.Hang.{parse_debug_aranges-stuck}
use ine_debugger.Dwarf.Aranges.Units.{
  RangeUnit, section_bytes, section_ranges, Holds, parse_debug_aranges-section_bytes,
}

abbrev units : List RangeUnit
units = record { addr_size = 2; seg_size = 1; entries = (300, 1, 40) ∷ [] } ∷ []

abbrev memory : List ℕ
memory =
    7 ∷ 18 ∷ 0 ∷ 0 ∷ 0 ∷ 2 ∷ 0 ∷ 0 ∷ 0 ∷ 0 ∷ 0 ∷ 2 ∷ 1 ∷ 44 ∷ 1 ∷ 1 ∷ 40 ∷ 0 ∷ 0 ∷ 0 ∷ 0 ∷ 0 ∷ 0 ∷ 9
    ∷ []

memory-Holds : Holds 3 memory 1 (1 + length (section_bytes units)) units (9 ∷ [])
memory-Holds = (
  (
    (
      omega arith,
      omega arith,
      (((omega arith, omega arith, omega arith, omega arith, omega arith, omega arith), refl), tt),
      omega arith,
    ),
    tt,
  ),
  refl,
  refl,
  omega arith,
)

parse_debug_aranges-section_bytes_example :
    parse_debug_aranges 3 2 memory 1 22 ≡ done (section_ranges units)
parse_debug_aranges-section_bytes_example =
    parse_debug_aranges-section_bytes units 3 2 memory 1 (9 ∷ []) memory-Holds (omega arith)

one_range : count_ranges 3 2 memory 1 (add32 1 22) ≡ done 1
unfolding count_ranges read_u32_le
one_range = refl

parse_debug_aranges-count_ranges_example :
    (ranges : List Range) × (parse_debug_aranges 3 2 memory 1 22 ≡ done ranges)
    × (length ranges ≡ 1)
parse_debug_aranges-count_ranges_example =
    parse_debug_aranges-count_ranges 3 2 memory 1 22 1 (omega arith) one_range

abbrev loop_memory : List ℕ
loop_memory = 252 ∷ 255 ∷ 255 ∷ 255 ∷ 2 ∷ 0 ∷ 0 ∷ 0 ∷ 0 ∷ 0 ∷ 4 ∷ 2 ∷ []

loop_head : unit_head loop_memory 0 ≡ some (0xfffffffc, 4, 2)
unfolding unit_head read_u32_le
loop_head = refl

parse_debug_aranges-stuck_run : parse_debug_aranges 10 1000 loop_memory 0 12 ≡ stuck
parse_debug_aranges-stuck_run =
    parse_debug_aranges-stuck loop_memory 10 1000 0 12 4 2 (omega arith) (omega arith) loop_head
      (omega arith) (omega arith)
