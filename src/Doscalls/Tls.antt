-- ===== src/Doscalls/Tls.antt =====
-- native/doscalls.c: thread local memory (DosAllocThreadLocalMemory, DosFreeThreadLocalMemory). The
-- page that initTLSPage maps is a parameter: its address, or that there is none. A slot is 4 bytes.
pub mod Masks
pub mod Valid
pub mod Calls
pub mod Undo
pub mod Access
mod Runs
use ine_debugger.Doscalls.Errors.{no_error, error_not_enough_memory, error_invalid_parameter}
use ine_debugger.Prelude.{ℕ, zero, suc, ◌+◌, ◌-◌, ◌*◌, ◌/◌, ◌^◌, Bool, not, Option, none, some}
use ine_debugger.Prelude.{List, ltb, ◌==◌, if◌then◌else◌, get_or, set, bit_and, bit_or, bit_xor}
use ine_debugger.Prelude.Memory.{Outcome, ok, halt}
use ine_debugger.Prelude.Word.{u32, ◌<<◌, ◌>>◌}

-- Of GLoaderState: the page, one bit for each slot in use, and the sizes of the blocks by their
-- first slots.
pub record Tls : Type 0 where
  pub tlspage : Option ℕ
  pub tlsmask : ℕ
  pub tlsallocs : List ℕ

abbrev pub slot_count : ℕ
slot_count = 32

-- `0xFF >> (8 - cb)`
abbrev pub block_mask : ℕ → ℕ
block_mask cb = 0xff >> (8 - cb)

-- The search with `rounds` to go, from slot `i` with the mask shifted there: the slot and its mask.
unfoldable pub find_block : ℕ → ℕ → ℕ → ℕ → Option (ℕ × ℕ)
find_block zero i mask tlsmask = none
find_block (suc rounds) i mask tlsmask =
    let rest = find_block rounds (i + 1) (u32 (mask << 1)) tlsmask in
    if bit_and (bit_xor tlsmask mask) mask == mask then some (i, mask) else rest

-- The return code, what is written to `*p`, and the state.
abbrev pub AllocAnswer : Type 0
AllocAnswer = Outcome (ℕ × Option ℕ × Tls)

-- The block is entered; the assert is that no block begins there yet.
unfoldable pub enter_block : ℕ → ℕ → ℕ → ℕ → Tls → AllocAnswer
enter_block page cb i mask tls =
    if get_or tls.tlsallocs i 0 == 0
    then ok (
      no_error,
      some (page + 4 * i),
      record tls { tlsallocs = set tls.tlsallocs i cb; tlsmask = bit_or tls.tlsmask mask },
    )
    else halt

unfoldable pub answer_search : ℕ → ℕ → Tls → Option (ℕ × ℕ) → AllocAnswer
answer_search page cb tls none = ok (error_not_enough_memory, none, tls)
answer_search page cb tls (some (i, mask)) = enter_block page cb i mask tls

-- The search, once the page is there.
unfoldable pub alloc_slots : ℕ → Tls → Option ℕ → AllocAnswer
alloc_slots cb tls none = ok (error_not_enough_memory, none, tls)
alloc_slots cb tls (some page) =
    answer_search page cb (record tls { tlspage = some page })
      (find_block slot_count 0 (block_mask cb) tls.tlsmask)

-- The page is mapped by the first call that gets so far.
unfoldable pub ensure_page : Option ℕ → Option ℕ → Option ℕ
ensure_page init_tls_page none = init_tls_page
ensure_page init_tls_page (some page) = some page

unfoldable pub dos_alloc_thread_local_memory : Option ℕ → ℕ → Bool → Tls → AllocAnswer
dos_alloc_thread_local_memory init_tls_page cb has_p tls =
    if ltb 8 cb
    then ok (error_invalid_parameter, none, tls)
    else (if not has_p
        then ok (error_invalid_parameter, none, tls)
        else alloc_slots cb tls (ensure_page init_tls_page tls.tlspage))

-- `(uint32) (p - tlspage)`, in slots. Below the page the difference is negative.
unfoldable pub slot_of : ℕ → ℕ → ℕ
slot_of page p = if ltb p page then 2 ^ 32 - (page - p + 3) / 4 else u32 ((p - page) / 4)

-- `~mask` of 32 bits
abbrev pub not_32 : ℕ → ℕ
not_32 mask = bit_xor mask (2 ^ 32 - 1)

-- A block's mask in place.
abbrev pub mask_at : ℕ → ℕ → ℕ
mask_at slot slots = u32 (block_mask slots << slot)

-- A block that begins at `slot` is taken out; the assert is that all its bits are set.
unfoldable pub leave_block : ℕ → ℕ → Tls → Outcome (ℕ × Tls)
leave_block slot mask tls =
    if bit_and tls.tlsmask mask == mask
    then ok (
      no_error,
      record tls {
        tlsmask = bit_and tls.tlsmask (not_32 mask);
        tlsallocs = set tls.tlsallocs slot 0;
      },
    )
    else halt

-- `slots` is at most 8, as no call enters more.
unfoldable pub free_slots : ℕ → Tls → Outcome (ℕ × Tls)
free_slots slot tls =
    let slots = get_or tls.tlsallocs slot 0 in
    if ltb slot slot_count
    then (if ltb 0 slots
        then leave_block slot (mask_at slot slots) tls
        else ok (error_invalid_parameter, tls))
    else ok (error_invalid_parameter, tls)

unfoldable pub free_on_page : ℕ → Tls → Option ℕ → Outcome (ℕ × Tls)
free_on_page p tls none = ok (error_invalid_parameter, tls)
free_on_page p tls (some page) = free_slots (slot_of page p) tls

unfoldable pub dos_free_thread_local_memory : ℕ → Tls → Outcome (ℕ × Tls)
unfolding free_on_page
dos_free_thread_local_memory p tls = free_on_page p tls tls.tlspage
