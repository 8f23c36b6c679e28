-- ===== src/Dwarf/Lookup.antt =====
-- dwarf_info.c: the lookups between addresses and source lines (dwarf_addr_to_line,
-- dwarf_line_to_addr, dwarf_linear_to_line, dwarf_get_file_count, dwarf_get_file_name).
pub mod Best
pub mod Break
pub mod Linear
mod Runs
use ine_debugger.Prelude.{ℕ, zero, suc, ◌+◌, ◌-◌, ◌/◌, ◌%◌, ◌^◌}
use ine_debugger.Prelude.{Bool, true, false, ◌&&◌, ◌||◌, not, Option, none, some, List, [], ◌∷◌}
use ine_debugger.Prelude.{ltb, leb, ◌==◌, if◌then◌else◌, get_elem?, length}
use ine_debugger.Prelude.Word.{add32}
use ine_debugger.Dwarf.Program.{Row}

-- A file name: its bytes, without the final 0.
abbrev pub Name : Type 0
Name = List ℕ

-- DwarfAddrRange
pub record Range : Type 0 where
  pub segment : ℕ
  pub address : ℕ
  pub size : ℕ

-- What the lookups read of `g_dwarf`; the counts are the lengths.
pub record DwarfInfo : Type 0 where
  pub loaded : Bool
  pub lines : List Row
  pub file_names : List Name
  pub ranges : List Range

-- The inner loop: the address of the next end of a sequence.
unfoldable pub end_addr : List Row → ℕ
end_addr [] = 0xffffffff
end_addr (row ∷ rest) =
    let further = end_addr rest in if row.end_sequence then row.address else further

-- The tests that a row passes which is not skipped; `rest` are the rows after it.
unfoldable pub row_covers : ℕ → ℕ → Row → List Row → Bool
unfolding end_addr
row_covers segment offset row rest =
    not row.end_sequence
    && row.segment == segment
    && leb row.address offset
    && ltb offset (end_addr rest)

-- The outer loop, with `lines[best_idx]`, where there is one, and `best_addr`.
unfoldable pub best_loop : ℕ → ℕ → List Row → Option Row → ℕ → Option Row
unfolding row_covers
best_loop segment offset [] best best_addr = best
best_loop segment offset (row ∷ rest) best best_addr =
    let better = row_covers segment offset row rest && leb best_addr row.address in
    best_loop segment offset rest (if better then some row else best)
      (if better then row.address else best_addr)

-- `file_names[file - 1].name`, or NULL.
abbrev pub row_name : DwarfInfo → Row → Option Name
row_name info row =
    if ltb 0 row.file && leb row.file (length info.file_names)
    then get_elem? info.file_names (row.file - 1)
    else none

-- The line and the file name, or -1.
unfoldable pub dwarf_addr_to_line : DwarfInfo → ℕ → ℕ → Option (ℕ × Option Name)
unfolding best_loop
dwarf_addr_to_line info segment offset =
    if not info.loaded || length info.lines == 0
    then none
    else elim (best_loop segment offset info.lines none 0) [
      | none ↦ none
      | some row ↦ some (row.line, row_name info row)
    ]

-- What stands behind the last '/', or the whole name.
unfoldable pub base_name : Name → Name → Name
base_name [] whole = whole
base_name (c ∷ cs) whole = base_name cs (if c == 47 then cs else whole)

-- `strcmp(a, b) == 0`
unfoldable pub same_name : Name → Name → Bool
same_name [] [] = true
same_name [] (b ∷ bs) = false
same_name (a ∷ rest) [] = false
same_name (a ∷ rest) (b ∷ bs) = a == b && same_name rest bs

-- The first file with a base name, as a 1-based index, and its name.
unfoldable pub find_file : Name → List Name → ℕ → Option (ℕ × Name)
unfolding base_name same_name
find_file search_base [] i = none
find_file search_base (name ∷ names) i =
    let further = find_file search_base names (i + 1) in
    if same_name (base_name name name) search_base then some (i + 1, name) else further

-- The first row of a file and a line.
unfoldable pub find_row : ℕ → ℕ → List Row → Option Row
find_row file_idx line [] = none
find_row file_idx line (row ∷ rest) =
    let further = find_row file_idx line rest in
    if not row.end_sequence && row.file == file_idx && row.line == line then some row else further

-- The segment, the offset and the matched name, or -1.
unfoldable pub dwarf_line_to_addr : DwarfInfo → Name → ℕ → Option (ℕ × ℕ × Name)
unfolding find_file find_row
dwarf_line_to_addr info filename line =
    if not info.loaded || length info.lines == 0
    then none
    else elim (find_file (base_name filename filename) info.file_names 0) [
      | none ↦ none
      | some (file_idx, name) ↦ elim (find_row file_idx line info.lines) [
        | none ↦ none
        | some row ↦ some (row.segment, row.address, name)
      ]
    ]

unfoldable pub dwarf_get_file_count : DwarfInfo → ℕ
dwarf_get_file_count info = length info.file_names

-- The index is not negative here; a negative one gives NULL in the source.
unfoldable pub dwarf_get_file_name : DwarfInfo → ℕ → Option Name
dwarf_get_file_name info index =
    if leb (length info.file_names) index then none else get_elem? info.file_names index

-- `addr >= start && addr < start + len`, in 32 bits
abbrev pub in_range : ℕ → Range → Bool
in_range a range = leb range.address a && ltb a (add32 range.address range.size)

-- The loops over the ranges: the first that contains an address and passes a test.
unfoldable pub find_range : (Range → Bool) → ℕ → List Range → Option Range
find_range ok a [] = none
find_range ok a (range ∷ rest) =
    let further = find_range ok a rest in
    if ok range && in_range a range then some range else further

-- The selector table as the debugger reads it.
pub record SharedState : Type 0 where
  pub selectors : List ℕ
  pub ne_segment : List ℕ

abbrev pub lx_max_ldt_slots : ℕ
lx_max_ldt_slots = 8192

-- The line, the name, the segment and the offset of an address in a range.
abbrev pub Place : Type 0
Place = (ℕ × Option Name) × ℕ × ℕ

abbrev pub place_in : DwarfInfo → ℕ → ℕ → Option Place
place_in info segment offset = elim (dwarf_addr_to_line info segment offset) [
  | none ↦ none
  | some found ↦ some (found, segment, offset)
]

-- The fallback of NE mode: the first range with the offset, whatever its segment.
abbrev pub any_segment : DwarfInfo → ℕ → Option Place
any_segment info offset = elim (find_range (λ range. true) offset info.ranges) [
  | none ↦ none
  | some range ↦ place_in info range.segment offset
]

-- NE mode behind the tests on the slot, for the slot's base and NE segment.
unfoldable pub ne_place : DwarfInfo → ℕ → ℕ → ℕ → Option Place
unfolding dwarf_addr_to_line find_range
ne_place info base ne_seg linear_addr =
    let offset = linear_addr - base in
    if base == 0 || ltb linear_addr base
    then none
    else (if ne_seg == 0
        then any_segment info offset
        else elim (find_range (λ range. range.segment == ne_seg) offset info.ranges) [
          | none ↦ any_segment info offset
          | some range ↦ place_in info ne_seg offset
        ])

unfoldable pub dwarf_linear_to_line : DwarfInfo → Option SharedState → Bool → ℕ → ℕ → Option Place
unfolding ne_place dwarf_addr_to_line find_range
dwarf_linear_to_line info state is_lx_mode linear_addr cs =
    if not info.loaded || length info.ranges == 0
    then none
    else (if is_lx_mode then any_segment info linear_addr else elim state [
      | none ↦ none
      | some table ↦
          (let slot = cs / 8 in
            if leb lx_max_ldt_slots slot then none else elim (get_elem? table.selectors slot) [
              | none ↦ none
              | some base ↦ elim (get_elem? table.ne_segment slot) [
                | none ↦ none
                | some ne_seg ↦ ne_place info base ne_seg linear_addr
              ]
            ])
    ])
