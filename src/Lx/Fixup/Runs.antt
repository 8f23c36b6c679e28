-- ===== src/Lx/Fixup/Runs.antt =====
-- lx_loader.c: fixups on concrete pages.
use ine_debugger.Prelude.{
  ℕ, ◌+◌, ◌*◌, some, ◌≡◌, refl, arith, Bool, Option, none, List, [], ◌∷◌, ◌++◌,
}
use ine_debugger.Prelude.{replicate, length}
use ine_debugger.Prelude.Memory.{Outcome, ok, crash, ◌>>=◌, load8, load16, load32, le32}
use ine_debugger.Prelude.Memory.Writes.{Patched}
use ine_debugger.Prelude.Word.{add32}
use ine_debugger.Lx.{Export}
use ine_debugger.Lx.Exports.{get_module_proc_addr_by_ordinal}
use ine_debugger.Lx.Fixup.{Module, do_fixup, fix_source, fixup_page}
use ine_debugger.Lx.Fixup.Records.{Fixup, one, many, Encodable}
use ine_debugger.Lx.Fixup.Page.{page_bytes, page_meaning, fixup_page-page_bytes}
use ine_debugger.Lx.Fixup.Patch.{do_fixup-Patched, fix_source_relative}

abbrev small_module : Module
small_module = record {
  mmaps = record { addr = 0x20000; alias = 0x1f } ∷ [];
  dependencies =
      (record {
        ordinal = 7;
        name = none;
        addr = 0x30007;
        object = some (record { addr = 0x30000; alias = 0xffff });
      }
        ∷ [])
      ∷ [];
  num_import_mod_entries = 1;
  import_proc_table = 0;
  original_cs = 0x5b;
}

-- An offset in the object, at two places; and an import by ordinal, called relatively.
abbrev two_records : List Fixup
two_records =
    record {
      srctype = 0x27;
      flags = 0;
      sources = many (0 ∷ 8 ∷ []);
      id = 1;
      target = 0x44;
      additive = 0;
    }
    ∷ record { srctype = 8; flags = 0x85; sources = one 4; id = 1; target = 7; additive = 3 }
    ∷ []

-- No pointer can be read, and misses make trampolines behind one another.
abbrev no_pointer : ℕ → Outcome ℕ
no_pointer p = crash

abbrev trampoline_at : ℕ → Bool → Outcome (ℕ × Option Export)
trampoline_at p want16bit = ok (0x40000 + 32 * p, none)

abbrev small_exe : List ℕ
small_exe = le32 0 ++ (le32 (length (page_bytes two_records)) ++ page_bytes two_records)

abbrev blank : List ℕ
blank = replicate 16 0

two_records-Encodable : Encodable (record {
  srctype = 0x27;
  flags = 0;
  sources = many (0 ∷ 8 ∷ []);
  id = 1;
  target = 0x44;
  additive = 0;
})
two_records-Encodable = record {
  lists = refl;
  target_kind = omega arith;
  target_size = omega arith;
  additive_size = omega arith;
}

second_record-Encodable :
    Encodable
      (record { srctype = 8; flags = 0x85; sources = one 4; id = 1; target = 7; additive = 3 })
second_record-Encodable = record {
  lists = refl;
  target_kind = omega arith;
  target_size = omega arith;
  additive_size = omega arith;
}

small_exe_run :
    fixup_page no_pointer trampoline_at 3 small_exe small_module 0 8 0 0 blank
    ≡ ok (le32 0x20044 ++ (le32 0x30002 ++ (le32 0x20044 ++ le32 0)))
unfolding fixup_page load32 load16 load8 get_module_proc_addr_by_ordinal
small_exe_run = refl

fixup_page-page_bytes_example :
    fixup_page no_pointer trampoline_at 3 small_exe small_module 0 8 0 0 blank
    ≡ page_meaning no_pointer trampoline_at small_exe small_module 0 8 two_records blank
unfolding load32 load16 load8
fixup_page-page_bytes_example =
    fixup_page-page_bytes no_pointer trampoline_at small_exe small_module 0 8 0 0 0 two_records
      blank [] (two_records-Encodable, (second_record-Encodable, tt)) refl refl (omega arith) refl

do_fixup-Patched_example : Patched 4 2 blank (0 ∷ 0 ∷ 0x78 ∷ 0x56 ∷ 0x34 ∷ 0x12 ∷ replicate 10 0)
unfolding do_fixup
do_fixup-Patched_example =
    do_fixup-Patched blank (0 ∷ 0 ∷ 0x78 ∷ 0x56 ∷ 0x34 ∷ 0x12 ∷ replicate 10 0) 2 0x12345678 0 4
      (omega arith) refl

fix_source_relative_run :
    (fix_source 0 8 0x30000 0 4 blank >>= λ mem'. load32 mem' 4 >>= λ d. ok (add32 d (4 + 4)))
    ≡ ok 0x30000
fix_source_relative_run =
    fix_source_relative 0 0x30000 0 4 blank (omega arith) (omega arith) (omega arith)
