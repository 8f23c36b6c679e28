-- ===== src/Lx/Sanity/Runs.antt =====
-- lx_loader.c: headers of concrete files.
use ine_debugger.Prelude.{ℕ, ◌≡◌, refl, arith, some, List, ◌∷◌, ◌++◌, false, replicate}
use ine_debugger.Prelude.Memory.{ok, crash, load32, load16, load8, le32}
use ine_debugger.Lx.Sanity.{sanity_check_module}
use ine_debugger.Lx.Sanity.Within.{Ends, sanity_check_module-Ends}

-- An NE header of 65 bytes behind a stub of 64.
abbrev ne_file : List ℕ
ne_file = replicate 60 0 ++ (le32 64 ++ (78 ∷ 69 ∷ (replicate 52 0 ++ (1 ∷ replicate 10 0))))

ne_file_run : sanity_check_module ne_file ≡ ok (some (64, 65, false))
unfolding sanity_check_module load32 load16 load8
ne_file_run = refl

-- A header behind the end of the file is read all the same.
outside_run : sanity_check_module (replicate 60 0 ++ le32 1000) ≡ crash
unfolding sanity_check_module load32 load16 load8
outside_run = refl

-- A file of 62 bytes passes the test of its length, and is too short for the header's offset.
short_run : sanity_check_module (replicate 62 0) ≡ crash
unfolding sanity_check_module load32 load16 load8
short_run = refl

sanity_check_module-Ends_example : Ends (sanity_check_module ne_file)
unfolding load32 load16 load8
sanity_check_module-Ends_example =
    sanity_check_module-Ends ne_file 64 (omega arith) (omega arith) refl (omega arith)
