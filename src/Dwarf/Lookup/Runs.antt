-- ===== src/Dwarf/Lookup/Runs.antt =====
-- The theorems on the lookups at a concrete table.
use ine_debugger.Prelude.{ℕ, ◌≤◌, ◌-◌, ◌≡◌, refl, arith, Bool, true, false, some}
use ine_debugger.Prelude.{[], ◌∷◌}
use ine_debugger.Dwarf.Program.{Row}
use ine_debugger.Dwarf.Lookup.{DwarfInfo, Name, SharedState, row_name, end_addr}
use ine_debugger.Dwarf.Lookup.{dwarf_addr_to_line, dwarf_line_to_addr, dwarf_linear_to_line}
use ine_debugger.Dwarf.Lookup.Best.{IsBest, dwarf_addr_to_line-IsBest}
use ine_debugger.Dwarf.Lookup.Break.{IsOrdered, dwarf_addr_to_line-dwarf_line_to_addr}
use ine_debugger.Dwarf.Lookup.Linear.{Base, Answers, dwarf_linear_to_line-Answers}

abbrev row : ℕ → ℕ → Bool → Row
row address line last = record {
  segment = 1;
  address = address;
  line = line;
  file = 1;
  end_sequence = last;
}

abbrev file_name : Name
file_name = 97 ∷ 47 ∷ 98 ∷ []

abbrev info : DwarfInfo
info = record {
  loaded = true;
  lines = row 16 10 false ∷ row 24 11 false ∷ row 24 12 false ∷ row 40 13 true ∷ [];
  file_names = file_name ∷ [];
  ranges = record { segment = 1; address = 16; size = 24 } ∷ [];
}

abbrev table : SharedState
table = record { selectors = 0 ∷ 65536 ∷ []; ne_segment = 0 ∷ 1 ∷ [] }

found_30 : dwarf_addr_to_line info 1 30 ≡ some (12, some file_name)
unfolding dwarf_addr_to_line
found_30 = refl

dwarf_addr_to_line-IsBest_example :
    (r : Row) × IsBest 1 30 info.lines r × (12 ≡ r.line) × (some file_name ≡ row_name info r)
dwarf_addr_to_line-IsBest_example = dwarf_addr_to_line-IsBest info 1 30 12 (some file_name) found_30

ordered : IsOrdered info.lines
unfolding end_addr
ordered = (
  λ e. omega arith,
  (λ e. omega arith, (λ e. omega arith, (λ e. absurd (ground (arith, e)), tt))),
)

line_11 : dwarf_line_to_addr info (98 ∷ []) 11 ≡ some (1, 24, file_name)
unfolding dwarf_line_to_addr
line_11 = refl

dwarf_addr_to_line-dwarf_line_to_addr_example :
    (r : Row) × IsBest 1 24 info.lines r
    × (r.address ≡ 24)
    × (dwarf_addr_to_line info 1 24 ≡ some (r.line, row_name info r))
dwarf_addr_to_line-dwarf_line_to_addr_example =
    dwarf_addr_to_line-dwarf_line_to_addr info (98 ∷ []) file_name 11 1 24 ordered line_11

linear_30 :
    dwarf_linear_to_line info (some table) false 65566 15 ≡ some ((12, some file_name), 1, 30)
unfolding dwarf_linear_to_line
linear_30 = refl

dwarf_linear_to_line-Answers_example :
    (base : ℕ) × Base (some table) false 15 base
    × (base ≤ 65566)
    × Answers info (65566 - base) (12, some file_name) 1 30
dwarf_linear_to_line-Answers_example =
    dwarf_linear_to_line-Answers info (some table) false 65566 15 1 30 (12, some file_name)
      linear_30
