-- ===== src/Lx/NeFixup/Runs.antt =====
-- lx_loader.c: fixups of an NE segment on concrete bytes.
use ine_debugger.Prelude.{ℕ, ◌≡◌, refl, Bool, true, List, [], ◌∷◌, ◌++◌}
use ine_debugger.Prelude.Memory.{ok, load16, load8, store16, store8, le16}
use ine_debugger.Selectors.{Loader, UserDesc}
use ine_debugger.Lx.NeFixup.{fixup_ne_segment}

-- 0 holds 4, and 4 holds an end.
abbrev two_places : List ℕ
two_places = le16 4 ++ (le16 7 ++ (le16 0xffff ++ le16 9))

abbrev granted : UserDesc → Bool
granted d = true

abbrev no_table : Loader
no_table = record { ldt = λ i. 0; loaded_modules = [] }

-- A segment of 8 bytes with one fixup: the offset 0x102 in segment 1, along the chain from 0 on.
abbrev small_ne : List ℕ
small_ne = two_places ++ (le16 1 ++ (5 ∷ 0 ∷ (le16 0 ++ (1 ∷ 0 ∷ le16 0x102))))

fixup_ne_segment_run :
    fixup_ne_segment granted
      (λ ordinal. 0)
      (λ i ordinal. 0)
      (λ i name. 0)
      3
      small_ne
      small_ne
      (record {
        mmaps = record { addr = 0x10000; alias = 1 } ∷ [];
        imported_names_table = 0;
        num_dependencies = 0;
      })
      (record { offset = 0; size = 8; segment_flags = 0x100 })
      0
      (two_places, no_table)
    ≡ ok (le16 0x102 ++ (le16 7 ++ (le16 0x102 ++ le16 9)), no_table)
unfolding fixup_ne_segment load16 load8 store16 store8
fixup_ne_segment_run = refl
