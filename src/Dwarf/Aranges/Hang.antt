-- ===== src/Dwarf/Aranges/Hang.antt =====
-- A unit whose length sends the cursor back to itself.
use ine_debugger.Prelude.{
  ℕ, zero, suc, ◌+◌, ◌<◌, ◌≤◌, ◌^◌, ◌≡◌, refl, arith, some, List, ◌⊎◌, inl, inr,
}
use ine_debugger.Prelude.Word.{add32, IsByte}
use ine_debugger.Dwarf.Program.{done, stuck}
use ine_debugger.Dwarf.Aranges.{count_entries, count_ranges, parse_debug_aranges, unit_head}

no_entries :
    (steps : ℕ) (mem : List ℕ) (a s start : ℕ)
    → start + 800 < 2 ^ 32
    → IsByte a
    → IsByte s
    → (count_entries steps mem a s (add32 start 12) start ≡ stuck)
      ⊎ (count_entries steps mem a s (add32 start 12) start ≡ done 0)
unfolding count_entries
no_entries zero mem a s start room ha hs = inl refl
no_entries (suc n) mem a s start room ha hs = inr (ground arith)

count_ranges-stuck :
    (mem : List ℕ) (steps fuel start size a s : ℕ)
    → 12 ≤ size
    → start + size + 800 < 2 ^ 32
    → unit_head mem start ≡ some (0xfffffffc, a, s)
    → IsByte a
    → IsByte s
    → count_ranges steps fuel mem start (add32 start size) ≡ stuck
unfolding count_ranges
count_ranges-stuck mem steps zero start size a s big room head ha hs = refl
count_ranges-stuck mem steps (suc fuel) start size a s big room head ha hs =
    let back : add32 start (4 + 0xfffffffc) ≡ start = omega arith in
    let ih = count_ranges-stuck mem steps fuel start size a s big room head ha hs in
    elim (no_entries steps mem a s start (omega arith) ha hs) [
      | inl out ↦ ground (arith, head, back, out, ih)
      | inr none_here ↦ ground (arith, head, back, none_here, ih)
    ]

-- A section whose first unit has the length 2 ^ 32 - 4 is never left by pass 1, whatever the fuel,
-- where the section lies at least 800 bytes below the end of the address space.
pub parse_debug_aranges-stuck :
    (mem : List ℕ) (steps fuel start size addr_size seg_size : ℕ)
    → 12 ≤ size
    → start + size + 800 < 2 ^ 32
    → unit_head mem start ≡ some (0xfffffffc, addr_size, seg_size)
    → IsByte addr_size
    → IsByte seg_size
    → parse_debug_aranges steps fuel mem start size ≡ stuck
unfolding parse_debug_aranges
parse_debug_aranges-stuck mem steps fuel start size a s big room head ha hs =
    ground (arith, count_ranges-stuck mem steps fuel start size a s big room head ha hs)
