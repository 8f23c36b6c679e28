-- ===== src/Doscalls/Tls/Runs.antt =====
-- native/doscalls.c, lx_loader.c: blocks of thread local memory that are granted, used and given back.
use ine_debugger.Doscalls.Tls.{
  Tls, alloc_slots, ensure_page, answer_search, find_block, enter_block,
  dos_alloc_thread_local_memory, slot_of, dos_free_thread_local_memory,
}
use ine_debugger.Doscalls.Tls.Masks.{span, block_mask-Block}
use ine_debugger.Doscalls.Tls.Valid.{IsValid, entered, entered-IsValid}
use ine_debugger.Doscalls.Tls.Undo.{
  FreeResult, dos_free_thread_local_memory-FreeResult, dos_free_thread_local_memory_undo,
}
use ine_debugger.Doscalls.Tls.Access.{
  Thread, handle_thread_local_storage_access, segfault_catcher, segfault_catcher-granted,
  handle_thread_local_storage_access_twice,
}
use ine_debugger.Prelude.{ℕ, zero, suc, ◌+◌, ◌*◌, ◌≡◌, refl, arith, true, none, some, List, [], ◌∷◌}
use ine_debugger.Prelude.{get_or, set, replicate}
use ine_debugger.Prelude.Memory.{ok, halt, ◌>>=◌, load8}
use ine_debugger.Prelude.Digits.{bit-zero}

abbrev no_blocks : Tls
no_blocks = record { tlspage = none; tlsmask = 0; tlsallocs = replicate 32 0 }

no_size : (n s : ℕ) → get_or (replicate {A = ℕ} n 0) s 0 ≡ 0
no_size zero s = refl
no_size (suc n) zero = refl
no_size (suc n) (suc s) = no_size n s

empty_span : (s n b : ℕ) → n ≡ 0 → ¬ (span s n b ≡ 1)
empty_span s n b e inside = ground arith

no_blocks-IsValid : IsValid no_blocks
no_blocks-IsValid = record {
  table = refl;
  small = λ s. omega (arith, no_size 32 s);
  marked = λ s b c. absurd (empty_span s _ b (no_size 32 s) c);
  owned = λ b used. absurd (omega (arith, bit-zero b));
  apart = λ s t b c d. absurd (empty_span s _ b (no_size 32 s) c);
}

-- Three slots from the first on.
abbrev three : Tls
three = entered 0 3 7 (record no_blocks { tlspage = some 0xf7000000 })

three-IsValid : IsValid three
three-IsValid =
    entered-IsValid {tls = record no_blocks { tlspage = some 0xf7000000 }}
      (record {
        table = v.table;
        small = v.small;
        marked = v.marked;
        owned = v.owned;
        apart = v.apart;
      })
      0 3 7 (omega arith) (omega arith) (omega arith) (block_mask-Block 3 (omega arith))
      (λ b inside. bit-zero b)
  where
    v : IsValid no_blocks
    v = no_blocks-IsValid

grant_run :
    dos_alloc_thread_local_memory (some 0xf7000000) 3 true no_blocks
    ≡ ok (0, some 0xf7000000, three)
unfolding dos_alloc_thread_local_memory alloc_slots ensure_page answer_search find_block enter_block
grant_run = refl

dos_free_thread_local_memory-FreeResult_run :
    FreeResult (slot_of 0xf7000000 0xf7000000) three (dos_free_thread_local_memory 0xf7000000 three)
dos_free_thread_local_memory-FreeResult_run =
    dos_free_thread_local_memory-FreeResult 0xf7000000 0xf7000000 three three-IsValid refl

dos_free_thread_local_memory_undo_example :
    dos_free_thread_local_memory 0xf7000000 three
    ≡ ok (0, record no_blocks { tlspage = some 0xf7000000 })
unfolding ensure_page
dos_free_thread_local_memory_undo_example =
    dos_free_thread_local_memory_undo (some 0xf7000000) 0xf7000000 3 0 0xf7000000 no_blocks three
      no_blocks-IsValid (omega arith) (omega arith) refl grant_run

-- mov [ebx], ecx; mov eax, [ebx]
abbrev code : List ℕ
code = 0x89 ∷ 0x0b ∷ 0x8b ∷ 0x03 ∷ []

abbrev thread : Thread
thread = record {
  gregs = 11 ∷ 22 ∷ 33 ∷ 44 ∷ 55 ∷ 66 ∷ 77 ∷ 88 ∷ [];
  eip = 0;
  tls = replicate 32 9;
}

segfault_catcher-granted_example :
    (do
      t' ← segfault_catcher code (some 0xf7000000) (0xf7000000 + 4 * 2) thread
      segfault_catcher code (some 0xf7000000) (0xf7000000 + 4 * 2) t')
    ≡ ok (record { gregs = set thread.gregs 0 22; eip = 4; tls = set thread.tls 2 22 })
unfolding ensure_page load8
segfault_catcher-granted_example =
    segfault_catcher-granted (some 0xf7000000) 0xf7000000 3 0 0xf7000000 2 1 0 3 3 22 no_blocks
      three code thread no_blocks-IsValid (omega arith) (omega arith) refl grant_run (omega arith)
      (omega arith) refl refl refl refl refl (omega arith) (omega arith) refl (omega arith)
      (omega arith)

handle_thread_local_storage_access_twice_run :
    (do
      t' ← handle_thread_local_storage_access code 5 thread
      handle_thread_local_storage_access code 5 t')
    ≡ ok (record { gregs = set thread.gregs 0 22; eip = 4; tls = set thread.tls 5 22 })
unfolding load8
handle_thread_local_storage_access_twice_run =
    handle_thread_local_storage_access_twice code 5 1 0 3 3 22 thread refl refl refl refl
      (omega arith) (omega arith) refl (omega arith) (omega arith) (omega arith)

-- 30 slots are in use: a block of 8 has two slots that are the thread's.
abbrev full : Tls
full = record { tlspage = some 0xf7000000; tlsmask = 0x3fffffff; tlsallocs = replicate 32 0 }

short_run :
    dos_alloc_thread_local_memory none 8 true full
    ≡ ok (
      0,
      some (0xf7000000 + 4 * 30),
      record full { tlsmask = 0xffffffff; tlsallocs = set (replicate 32 0) 30 8 },
    )
unfolding dos_alloc_thread_local_memory alloc_slots ensure_page answer_search find_block enter_block
short_run = refl

-- A call for no slots fails its assert once a block begins at slot 0.
no_slots_run : dos_alloc_thread_local_memory none 0 true three ≡ halt
unfolding dos_alloc_thread_local_memory alloc_slots ensure_page answer_search find_block enter_block
no_slots_run = refl
