-- ===== src/Doscalls/Tls/Access.antt =====
-- lx_loader.c: what happens when a program touches the page of thread local memory, which is mapped
-- without access (segfault_catcher, handleThreadLocalStorageAccess): the instruction is carried out
-- on the slots of the thread.
use ine_debugger.Doscalls.Tls.{Tls, ensure_page, dos_alloc_thread_local_memory}
use ine_debugger.Doscalls.Tls.Valid.{IsValid}
use ine_debugger.Doscalls.Tls.Calls.{AllocResult, dos_alloc_thread_local_memory-AllocResult}
use ine_debugger.Prelude.{ℕ, ◌+◌, ◌-◌, ◌*◌, ◌/◌, ◌^◌, ◌≤◌, ◌<◌, ◌≡◌, refl, ◌∙◌, arith}
use ine_debugger.Prelude.{true, false, Option, none, some, List, get_elem?, set, length, ◌||◌}
use ine_debugger.Prelude.{
  ltb, leb, ◌==◌, if◌then◌else◌, get_elem?-set_self, Bool-cases, inl, inr, lt→ltb,
}
use ine_debugger.Prelude.Memory.{Outcome, ok, crash, halt, ◌>>=◌, bind_cong, load8, load32}
use ine_debugger.Prelude.Word.{add32, ◌>>◌}

-- Of a thread: its general registers in the order of x86RegisterToUContextEnum, its program counter,
-- and the slots behind its TIB2.
pub record Thread : Type 0 where
  pub gregs : List ℕ
  pub eip : ℕ
  pub tls : List ℕ

-- A read of an array of C, which must not leave it; and a write.
abbrev pub at : List ℕ → ℕ → Outcome ℕ
at xs i = elim (get_elem? xs i) [ none ↦ crash | some x ↦ ok x ]

abbrev pub put : List ℕ → ℕ → ℕ → Outcome (List ℕ)
put xs i v = if ltb i (length xs) then ok (set xs i v) else crash

-- `eip[0]` 0xC7: a number to the slot.
unfoldable pub move_immediate : List ℕ → ℕ → Thread → Outcome Thread
move_immediate mem slot t = do
  value ← load32 mem (t.eip + 2)
  slots ← put t.tls slot value
  ok (record t { tls = slots; eip = add32 t.eip 6 })

-- 0x89: a register to the slot.
unfoldable pub move_to_slot : List ℕ → ℕ → Thread → Outcome Thread
move_to_slot mem slot t = do
  operand ← load8 mem (t.eip + 1)
  value ← at t.gregs (operand >> 3)
  slots ← put t.tls slot value
  ok (record t { tls = slots; eip = add32 t.eip 2 })

-- 0x8B: the slot to a register.
unfoldable pub move_from_slot : List ℕ → ℕ → Thread → Outcome Thread
move_from_slot mem slot t = do
  operand ← load8 mem (t.eip + 1)
  value ← at t.tls slot
  registers ← put t.gregs (operand >> 3) value
  ok (record t { gregs = registers; eip = add32 t.eip 2 })

-- The switch over the opcode. An unknown one ends the process.
unfoldable pub move_by : ℕ → List ℕ → ℕ → Thread → Outcome Thread
move_by opcode mem slot t =
    if opcode == 0xc7
    then move_immediate mem slot t
    else (if opcode == 0x89
        then move_to_slot mem slot t
        else (if opcode == 0x8b then move_from_slot mem slot t else halt))

-- The thread as it goes on. The memory `mem` holds the code.
unfoldable pub handle_thread_local_storage_access : List ℕ → ℕ → Thread → Outcome Thread
handle_thread_local_storage_access mem slot t = do
  opcode ← load8 mem t.eip
  move_by opcode mem slot t

-- `(int) (addr - tlspage)` as a 32-bit pattern, of a distance in bytes.
unfoldable pub signed_slot : ℕ → ℕ
signed_slot d = if ltb d (2 ^ 31) then d / 4 else 2 ^ 32 - (2 ^ 32 - d + 3) / 4

-- A fault at an address, with the page where there is one. Any other fault ends the process.
unfoldable pub segfault_catcher : List ℕ → Option ℕ → ℕ → Thread → Outcome Thread
segfault_catcher mem none addr t = halt
segfault_catcher mem (some page) addr t =
    let slot = signed_slot (addr - page) in
    if leb page addr
    then (if ltb slot 32 || leb (2 ^ 31) slot
        then handle_thread_local_storage_access mem slot t
        else halt)
    else halt

signed_slot_at : (page slot : ℕ) → slot < 2 ^ 29 → signed_slot (page + 4 * slot - page) ≡ slot
unfolding signed_slot
signed_slot_at page slot small = ground arith

segfault_catcher_at :
    (mem : List ℕ) (page slot : ℕ) (t : Thread)
    → slot < 2 ^ 29
    → segfault_catcher mem (some page) (page + 4 * slot) t
      ≡ (if ltb slot 32 then handle_thread_local_storage_access mem slot t else halt)
unfolding segfault_catcher
segfault_catcher_at mem page slot t small =
    let above : leb page (page + 4 * slot) ≡ true = ground arith in
    let not_negative : leb (2 ^ 31) slot ≡ false = ground arith in
    rw (above, signed_slot_at page slot small, not_negative)
      (elim (Bool-cases (ltb slot 32)) [ inl low ↦ rw low refl | inr high ↦ rw high refl ])

-- An access to slot `b` of a block that was granted reaches the handler with that slot if it is one of
-- the 32 slots of the thread; in the part of a block behind them it ends the process.
granted_slot :
    (init_tls_page : Option ℕ) (page cb code p b : ℕ) (tls tls' : Tls) (mem : List ℕ)
    → IsValid tls
    → 1 ≤ cb
    → cb ≤ 8
    → ensure_page init_tls_page tls.tlspage ≡ some page
    → dos_alloc_thread_local_memory init_tls_page cb true tls ≡ ok (code, some p, tls')
    → b < cb
    → (i : ℕ) × (p ≡ page + 4 * i)
      × ((t : Thread)
          → segfault_catcher mem (some page) (p + 4 * b) t
            ≡ (if ltb (i + b) 32 then handle_thread_local_storage_access mem (i + b) t else halt))
granted_slot init_tls_page page cb code p b tls tls' mem v some_slot few e granted lt =
    let result : AllocResult page cb tls (ok (code, some p, tls')) =
      rw granted at
        (dos_alloc_thread_local_memory-AllocResult init_tls_page page cb tls v some_slot few e) in
    let (i, low, where_it_is, _, _, _) = result.2 in
    let address : p + 4 * b ≡ page + 4 * (i + b) = omega arith in
    (i, where_it_is, λ t. rw address (segfault_catcher_at mem page (i + b) t (omega arith)))

-- One instruction of either direction.
store_step :
    (mem : List ℕ) (slot a rm value : ℕ) (t : Thread)
    → load8 mem t.eip ≡ ok 0x89
    → load8 mem (t.eip + 1) ≡ ok (8 * a + rm)
    → rm < 8
    → get_elem? t.gregs a ≡ some value
    → slot < length t.tls
    → t.eip + 2 < 2 ^ 32
    → handle_thread_local_storage_access mem slot t
      ≡ ok (record t { tls = set t.tls slot value; eip = t.eip + 2 })
unfolding handle_thread_local_storage_access move_by move_to_slot
store_step mem slot a rm value t opcode operand k from lt near =
    let register : (8 * a + rm) / 8 ≡ a = omega arith in
    let on : add32 t.eip 2 ≡ t.eip + 2 = omega arith in
    let got : at t.gregs a ≡ ok value = rw (from, at) refl in
    rw (opcode, operand, register, got, lt→ltb _ _ lt, on) refl

load_step :
    (mem : List ℕ) (slot b rm value : ℕ) (t : Thread)
    → load8 mem t.eip ≡ ok 0x8b
    → load8 mem (t.eip + 1) ≡ ok (8 * b + rm)
    → rm < 8
    → get_elem? t.tls slot ≡ some value
    → b < length t.gregs
    → t.eip + 2 < 2 ^ 32
    → handle_thread_local_storage_access mem slot t
      ≡ ok (record t { gregs = set t.gregs b value; eip = t.eip + 2 })
unfolding handle_thread_local_storage_access move_by move_from_slot
load_step mem slot b rm value t opcode operand k from lt near =
    let register : (8 * b + rm) / 8 ≡ b = omega arith in
    let on : add32 t.eip 2 ≡ t.eip + 2 = omega arith in
    let got : at t.tls slot ≡ ok value = rw (from, at) refl in
    rw (opcode, operand, register, got, lt→ltb _ _ lt, on) refl

-- Register `a` moved to a slot and then the slot moved to register `b`, by two instructions of two
-- bytes one behind the other that address the slot by a register alone: register `b` and the slot
-- hold what `a` held, the other registers and slots are unchanged, and the thread goes on behind
-- both.
pub handle_thread_local_storage_access_twice :
    (mem : List ℕ) (slot a b rm rm' value : ℕ) (t : Thread)
    → load8 mem t.eip ≡ ok 0x89
    → load8 mem (t.eip + 1) ≡ ok (8 * a + rm)
    → load8 mem (t.eip + 2) ≡ ok 0x8b
    → load8 mem (t.eip + 3) ≡ ok (8 * b + rm')
    → rm < 8
    → rm' < 8
    → get_elem? t.gregs a ≡ some value
    → b < length t.gregs
    → slot < length t.tls
    → t.eip + 4 < 2 ^ 32
    → (do
      t' ← handle_thread_local_storage_access mem slot t
      handle_thread_local_storage_access mem slot t')
      ≡ ok (record { gregs = set t.gregs b value; eip = t.eip + 4; tls = set t.tls slot value })
handle_thread_local_storage_access_twice mem slot a b rm rm' value t o1 m1 o2 m2 k k' from to lt
      near =
    let t' : Thread = record t { tls = set t.tls slot value; eip = t.eip + 2 } in
    let third : t.eip + 2 + 1 ≡ t.eip + 3 = omega arith in
    let fourth : t.eip + 2 + 2 ≡ t.eip + 4 = omega arith in
    let stored = store_step mem slot a rm value t o1 m1 k from lt (omega arith) in
    let loaded =
      load_step mem slot b rm' value t' o2 (rw third m2) k' (get_elem?-set_self t.tls slot value lt)
        to (omega arith) in
    rw (stored, loaded, fourth) refl

-- A program stores register `a` in slot `b` of a block that it was granted and loads register `c` from
-- there, by two instructions of two bytes one behind the other that address the slot by a register
-- alone. Where the slot is one of the 32 of the thread, both faults are caught and both moves are
-- carried out: the slot, counted from the page on, and register `c` hold what `a` held, the other
-- registers and slots are unchanged, and the thread goes on behind both.
pub segfault_catcher-granted :
    (init_tls_page : Option ℕ) (page cb code p b a c rm rm' value : ℕ) (tls tls' : Tls)
    (mem : List ℕ) (t : Thread)
    → IsValid tls
    → 1 ≤ cb
    → cb ≤ 8
    → ensure_page init_tls_page tls.tlspage ≡ some page
    → dos_alloc_thread_local_memory init_tls_page cb true tls ≡ ok (code, some p, tls')
    → b < cb
    → p + 4 * b < page + 4 * 32
    → length t.tls ≡ 32
    → load8 mem t.eip ≡ ok 0x89
    → load8 mem (t.eip + 1) ≡ ok (8 * a + rm)
    → load8 mem (t.eip + 2) ≡ ok 0x8b
    → load8 mem (t.eip + 3) ≡ ok (8 * c + rm')
    → rm < 8
    → rm' < 8
    → get_elem? t.gregs a ≡ some value
    → c < length t.gregs
    → t.eip + 4 < 2 ^ 32
    → (do
      t' ← segfault_catcher mem (some page) (p + 4 * b) t
      segfault_catcher mem (some page) (p + 4 * b) t')
      ≡ ok (record {
        gregs = set t.gregs c value;
        eip = t.eip + 4;
        tls = set t.tls ((p - page) / 4 + b) value;
      })
segfault_catcher-granted init_tls_page page cb code p b a c rm rm' value tls tls' mem t v some_slot
      few e granted lt inside size o1 m1 o2 m2 k k' from to near =
    let (i, where_it_is, reached) =
      granted_slot init_tls_page page cb code p b tls tls' mem v some_slot few e granted lt in
    let place : (p - page) / 4 + b ≡ i + b = omega (arith, where_it_is) in
    let low : ltb (i + b) 32 ≡ true = ground (arith, where_it_is, inside) in
    let caught : (t' : Thread)
        → segfault_catcher mem (some page) (p + 4 * b) t'
          ≡ handle_thread_local_storage_access mem (i + b) t' =
      λ t'. rw low at (reached t') in
    rw (caught t, place)
      (bind_cong (handle_thread_local_storage_access mem (i + b) t) _ _ caught
        ∙ handle_thread_local_storage_access_twice mem (i + b) a c rm rm' value t o1 m1 o2 m2 k k'
            from to (omega (arith, size, where_it_is, inside)) near)
