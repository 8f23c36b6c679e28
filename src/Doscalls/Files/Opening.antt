-- ===== src/Doscalls/Files/Opening.antt =====
-- native/doscalls.c: what doDosOpen leaves behind, however it ends.
use ine_debugger.Prelude.{ℕ, ◌<◌, ◌≡◌, ◌≢◌, refl, ◌∙◌, arith, inr}
use ine_debugger.Prelude.{true, false, ◌||◌, ◌&&◌, not, none, some, List}
use ine_debugger.Prelude.{length, get_elem?, get_elem?-set_self}
use ine_debugger.Prelude.{ltb}
use ine_debugger.Doscalls.Files.{HFileInfo, closed, reserved, modify, Errno}
use ine_debugger.Doscalls.Files.{System, get_h_file_unix_descriptor, init_h_file_info_from_unix_fd}
use ine_debugger.Doscalls.Files.Open.{OpenedFile, file_created, Plan}
use ine_debugger.Doscalls.Files.Open.{use_file, after_size, finish_open}
use ine_debugger.Doscalls.Files.Open.{release}
use ine_debugger.Doscalls.Files.Freed.{SameDescriptors, descriptor_at, released_length}

module _ {W : Type 0} where
  -- Refused: nothing is answered but an error, which is not 0, and no slot is kept. Granted: a handle that was free,
  -- with the flags of the call; all others are what they were; and the file is never said to be new.
  pub data OpenResult (h_files : List HFileInfo) (fs_open_flags : ℕ) (r : OpenedFile W)
      : Type 0 where
    refused :
        r.error ≢ 0
        → r.handle ≡ none
        → r.action ≡ none
        → SameDescriptors h_files r.h_files
        → OpenResult h_files fs_open_flags r
    granted :
        (hf : ℕ)
        → (info : HFileInfo) → r.error ≡ 0
        → r.handle ≡ some hf
        → get_h_file_unix_descriptor h_files hf ≡ closed
        → hf < length h_files
        → get_elem? r.h_files hf ≡ some info
        → info.flags ≡ fs_open_flags
        → ((k : ℕ) → hf ≢ k → get_elem? r.h_files k ≡ get_elem? h_files k)
        → r.action ≢ some file_created
        → OpenResult h_files fs_open_flags r

module _ {W : Type 0} (system : System W) where
  forgotten :
      (w : W) (fd : ℕ)
      → system.fstat w fd ≡ none
      → (init_h_file_info_from_unix_fd system w (some fd)).fd ≡ closed
  unfolding init_h_file_info_from_unix_fd
  forgotten w fd e = rw (init_h_file_info_from_unix_fd, e)

  -- Where the system sets no size through a descriptor that is only reserved, and knows nothing of
  -- a file that was closed, replacing a file by one of some size succeeds with a handle that is
  -- not open.
  pub use_file_sized :
      (table : List HFileInfo) (plan : Plan) (cb_file fs_open_flags hf fd : ℕ) (w : W)
      → ((v : W) (n : ℕ)
          → (errno : Errno) × (v' : W) × (system.ftruncate v reserved n ≡ (some errno, v')))
      → ((v : W) → system.fstat (system.close v fd).1 fd ≡ none)
      → plan.must_not_exist ≡ false
      → plan.is_replacing ≡ true
      → 0 < cb_file
      → get_h_file_unix_descriptor table hf ≡ reserved
      → hf < length table
      → let r = use_file system plan cb_file fs_open_flags table hf (inr fd, true, w) in
        (r.error ≡ 0) × (r.handle ≡ some hf) × (get_h_file_unix_descriptor r.h_files hf ≡ closed)
  unfolding use_file after_size finish_open
  use_file_sized table plan cb_file fs_open_flags hf fd w truncates forgets allowed replacing size
        taken there =
      let (errno, v, fails) = truncates w cb_file in
      let sized : ((not true || plan.is_replacing) && ltb 0 cb_file) ≡ true =
        ground (arith, size, replacing) in
      let kept = released_length table hf in
      let there' : hf < length (modify table hf release) = omega (arith, there, kept) in
      let result : use_file system plan cb_file fs_open_flags table hf (inr fd, true, w)
          ≡ finish_open system plan fs_open_flags (modify table hf release) (system.close v fd).1 hf
              fd true =
        rw (allowed, sized, taken, fails) refl in
      rw result (
        refl,
        refl,
        descriptor_at _ hf _ (get_elem?-set_self (modify table hf release) hf _ there')
            ∙ forgotten (system.close v fd).1 fd (forgets v),
      )
