-- ===== src/Dwarf/Lookup/Break.antt =====
-- A breakpoint on a line: dwarf_line_to_addr, and dwarf_addr_to_line at the address it answers.
use ine_debugger.Prelude.{ℕ, ◌<◌, ◌≡◌, refl, arith, inl, inr}
use ine_debugger.Prelude.{true, false, ◌&&◌, not, none, some, List, [], ◌∷◌}
use ine_debugger.Prelude.{◌==◌, Bool-cases, Option-cases}
use mathlib.Core.Path.{subst}
use ine_debugger.Dwarf.Program.{Row}
use ine_debugger.Dwarf.Lookup.{DwarfInfo, Name, row_covers, end_addr, row_name, find_row, find_file}
use ine_debugger.Dwarf.Lookup.{base_name, dwarf_addr_to_line, dwarf_line_to_addr}
use ine_debugger.Dwarf.Lookup.Best.{
  CoversIn, IsBest, IsBest-greatest, IsBest-le, IsBest-nonempty, best_loop_lem,
}

-- Every row lies before the end of its sequence.
abbrev pub IsOrdered : List Row → Type 0
IsOrdered [] = Unit {0}
IsOrdered (x ∷ xs) = (x.end_sequence ≡ false → x.address < end_addr xs) × IsOrdered xs

self_covers :
    (x : Row) (xs : List Row)
    → x.end_sequence ≡ false
    → x.address < end_addr xs
    → row_covers x.segment x.address x xs ≡ true
unfolding row_covers
self_covers x xs live before = ground (arith, live)

-- A row that is found covers its own address.
find_row-CoversIn :
    (file_idx line : ℕ) (rows : List Row) (row : Row)
    → IsOrdered rows
    → find_row file_idx line rows ≡ some row
    → CoversIn row.segment row.address rows row × (row.file ≡ file_idx) × (row.line ≡ line)
unfolding find_row row_covers
find_row-CoversIn file_idx line [] row o e = absurd (ground (arith, e))
find_row-CoversIn file_idx line (x ∷ xs) row (before, o) e =
    elim (Bool-cases (not x.end_sequence && x.file == file_idx && x.line == line)) [
      | inl here ↦
          let same : x ≡ row = ground (arith, e, here) in
          let live : x.end_sequence ≡ false = ground (arith, here) in
          subst
            (λ (t : Row).
              CoversIn t.segment t.address (x ∷ xs) t × (t.file ≡ file_idx) × (t.line ≡ line))
            same
            (
              inl (refl, self_covers x xs live (before live)),
              ground (arith, here),
              ground (arith, here),
            )
      | inr skipped ↦
          let (c, f, l) = find_row-CoversIn file_idx line xs row o (ground (arith, e, skipped)) in
          (inr c, f, l)
    ]

line_row :
    (info : DwarfInfo) (filename name : Name) (line segment offset : ℕ)
    → dwarf_line_to_addr info filename line ≡ some (segment, offset, name)
    → (file_idx : ℕ) × (row : Row) × (find_row file_idx line info.lines ≡ some row)
      × (row.segment ≡ segment)
      × (row.address ≡ offset)
      × (info.loaded ≡ true)
unfolding dwarf_line_to_addr
line_row info filename name line segment offset e =
    elim (Option-cases (find_file (base_name filename filename) info.file_names 0)) [
      | inl no_file ↦ absurd (ground (arith, e, no_file))
      | inr ((file_idx, name'), file) ↦ elim (Option-cases (find_row file_idx line info.lines)) [
        | inl no_row ↦ absurd (ground (arith, e, file, no_row))
        | inr (row, found) ↦ (
          file_idx,
          row,
          found,
          ground (arith, e, file, found),
          ground (arith, e, file, found),
          ground (arith, e, file, found),
        )
      ]
    ]

-- Where every row lies before the end of its sequence, an address that dwarf_line_to_addr answers
-- is translated back by dwarf_addr_to_line: to the line of the best row for it, whose address is
-- that same address.
pub dwarf_addr_to_line-dwarf_line_to_addr :
    (info : DwarfInfo) (filename name : Name) (line segment offset : ℕ)
    → IsOrdered info.lines
    → dwarf_line_to_addr info filename line ≡ some (segment, offset, name)
    → (row : Row) × IsBest segment offset info.lines row
      × (row.address ≡ offset)
      × (dwarf_addr_to_line info segment offset ≡ some (row.line, row_name info row))
unfolding dwarf_addr_to_line
dwarf_addr_to_line-dwarf_line_to_addr info filename name line segment offset o e =
    let (file_idx, row, found, seg, off, loaded) =
      line_row info filename name line segment offset e in
    let (c, f, l) = find_row-CoversIn file_idx line info.lines row o found in
    let covers = rw (seg, off) at c in
    elim (best_loop_lem segment offset info.lines none 0) [
      | inl (nothing, low) ↦ absurd (omega (arith, low row covers))
      | inr (best, chosen, is_best, le) ↦
          let some_rows = IsBest-nonempty segment offset info.lines best is_best in
          let up = IsBest-greatest segment offset info.lines best row is_best covers in
          let down = IsBest-le segment offset info.lines best is_best in
          (best, is_best, omega (arith, up, down, off), ground (arith, chosen, loaded, some_rows))
    ]
