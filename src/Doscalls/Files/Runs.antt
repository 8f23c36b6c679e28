-- ===== src/Doscalls/Files/Runs.antt =====
-- native/doscalls.c: calls on file handles, on concrete tables. The system numbers the files that
-- it opens; it refuses to set a size through a descriptor that is not open.
use ine_debugger.Doscalls.Errors.{error_invalid_handle}
use ine_debugger.Prelude.{
  ℕ, suc, ◌≡◌, refl, arith, inl, inr, true, false, Option, none, some, List, [], ◌∷◌,
}
use ine_debugger.Prelude.{◌==◌}
use ine_debugger.Doscalls.Files.{
  HFileInfo, System, closed, reserved, unix, no_file, Errno, other, s_ifreg,
}
use ine_debugger.Doscalls.Files.{Descriptor, read_write, dos_close, dos_query_fh_state}
use ine_debugger.Doscalls.Files.{dos_set_rel_max_fh, get_h_file_unix_descriptor}
use ine_debugger.Doscalls.Files.Slots.{dos_close-query}
use ine_debugger.Doscalls.Files.Open.{do_dos_open, use_file, Plan}
use ine_debugger.Doscalls.Files.Opening.{use_file_sized}

-- The number of the next file, and the one closed last.
abbrev World : Type 0
World = ℕ × ℕ

abbrev truncate_through : World → Descriptor → Option Errno × World
truncate_through w closed = (some other, w)
truncate_through w reserved = (some other, w)
truncate_through w (unix n) = (none, w)

abbrev small_system : System World
small_system = record {
  make_unix_path = λ w name. inr name;
  open_file = λ w path flags mode. (inr w.0, (suc w.0, w.1));
  close = λ w fd. (true, (w.0, fd));
  ftruncate = λ w fd n. truncate_through w fd;
  fstat = λ w fd. elim (w.1 == fd) [ true ↦ none | false ↦ some s_ifreg ];
  dup = λ w fd. (none, w);
}

abbrev three_slots : List HFileInfo
three_slots =
    record { fd = unix 0; type_of = 1; attr = 0; flags = 0 }
    ∷ record { fd = unix 7; type_of = 0; attr = 0; flags = 5 }
    ∷ no_file
    ∷ []

dos_close-query_run :
    let (error, table, w) = dos_close small_system three_slots (8, 0) 1 in
    (error ≡ 0)
    × (w ≡ (8, 7))
    × (dos_query_fh_state table 1 ≡ inl error_invalid_handle)
    × ((k : ℕ) → (1 ≡ k → ⊥) → dos_query_fh_state table k ≡ dos_query_fh_state three_slots k)
unfolding get_h_file_unix_descriptor
dos_close-query_run = dos_close-query small_system three_slots (8, 0) 1 7 refl (omega arith) refl

-- Growing the table by two loses the second handle.
lost_handle_run :
    dos_query_fh_state (dos_set_rel_max_fh three_slots 2 (no_file ∷ no_file ∷ []) true).1 1
    ≡ inl error_invalid_handle
unfolding dos_query_fh_state dos_set_rel_max_fh
lost_handle_run = refl

do_dos_open_run : (do_dos_open small_system three_slots (8, 0) (65 ∷ []) 0 0 0x11 2).handle ≡ some 2
unfolding do_dos_open
do_dos_open_run = refl

abbrev replacing_plan : Plan
replacing_plan = record {
  flags = record {
    access = read_write;
    creat = false;
    excl = false;
    trunc = true;
    sync = false;
    cloexec = false;
  };
  must_not_exist = false;
  is_exclusive = false;
  is_replacing = true;
}

abbrev one_reserved : List HFileInfo
one_reserved = record { fd = reserved; type_of = 0; attr = 0; flags = 0 } ∷ []

use_file_sized_run :
    let r = use_file small_system replacing_plan 100 2 one_reserved 0 (inr 8, true, (9, 0)) in
    (r.error ≡ 0) × (r.handle ≡ some 0) × (get_h_file_unix_descriptor r.h_files 0 ≡ closed)
unfolding get_h_file_unix_descriptor
use_file_sized_run =
    use_file_sized small_system one_reserved replacing_plan 100 2 0 8 (9, 0)
      (λ v n. (other, v, refl)) (λ v. refl) refl refl (omega arith) refl (omega arith)
