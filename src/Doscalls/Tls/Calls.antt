-- ===== src/Doscalls/Tls/Calls.antt =====
-- Thread local memory: how the two calls end, and that they undo each other.
use ine_debugger.Doscalls.Errors.{no_error, error_not_enough_memory}
use ine_debugger.Doscalls.Tls.{
  Tls, slot_count, block_mask, enter_block, answer_search, alloc_slots, ensure_page, AllocAnswer,
  dos_alloc_thread_local_memory,
}
use ine_debugger.Doscalls.Tls.Masks.{block_mask-Block, FreeSpan, Search, find_block-Search}
use ine_debugger.Doscalls.Tls.Valid.{size_at, IsValid, FreeSpan-size, entered-size, entered-IsValid}
use ine_debugger.Prelude.{ℕ, ◌+◌, ◌*◌, ◌≤◌, ◌<◌, ◌≡◌, refl, arith}
use ine_debugger.Prelude.{true, false, Option, none, some}
use ine_debugger.Prelude.{ltb, ◌==◌, if◌then◌else◌}
use ine_debugger.Prelude.Memory.{ok}

-- A call that got to the search is refused, with no free span, or grants the first one.
abbrev pub AllocResult : ℕ → ℕ → Tls → AllocAnswer → Type 0
AllocResult page cb tls (ok (code, none, tls')) =
    (code ≡ error_not_enough_memory)
    × (tls' ≡ record tls { tlspage = some page })
    × ((i : ℕ) → i < 32 → ¬ FreeSpan i cb tls.tlsmask)
AllocResult page cb tls (ok (code, some p, tls')) =
    (code ≡ no_error)
    × IsValid tls'
    × ((i : ℕ) × (i < 32)
        × (p ≡ page + 4 * i)
        × FreeSpan i cb tls.tlsmask
        × ((j : ℕ) → j < i → ¬ FreeSpan j cb tls.tlsmask)
        × ((s : ℕ) → size_at tls' s ≡ (if i == s then cb else size_at tls s)))
AllocResult page cb tls _ = ⊥

module _ (page cb : ℕ) (tls : Tls) (v : IsValid tls) (few : cb ≤ 8) (some_slot : 1 ≤ cb) where
  with_page-IsValid : IsValid (record tls { tlspage = some page })
  with_page-IsValid = record {
    table = v.table;
    small = v.small;
    marked = v.marked;
    owned = v.owned;
    apart = v.apart;
  }

  enter_block-AllocResult :
      (i mask : ℕ)
      → Search 0 cb tls.tlsmask (some (i, mask))
      → AllocResult page cb tls (enter_block page cb i mask (record tls { tlspage = some page }))
  unfolding enter_block
  enter_block-AllocResult i mask (lt, here, empty, first) =
      let fresh = FreeSpan-size v i cb some_slot lt empty in
      let v' = with_page-IsValid in
      rw fresh (
        refl,
        entered-IsValid v' i cb mask few some_slot lt here empty,
        (
          i,
          lt,
          refl,
          empty,
          λ j before. first j (omega arith) before,
          entered-size v' i cb mask few some_slot lt here empty,
        ),
      )

  answer_search-AllocResult :
      (answer : Option (ℕ × ℕ))
      → Search 0 cb tls.tlsmask answer
      → AllocResult page cb tls (answer_search page cb (record tls { tlspage = some page }) answer)
  unfolding answer_search
  answer_search-AllocResult none found = (refl, refl, λ i lt. found i (omega arith) lt)
  answer_search-AllocResult (some (i, mask)) found = enter_block-AllocResult i mask found

pub dos_alloc_thread_local_memory-AllocResult :
    (init_tls_page : Option ℕ) (page cb : ℕ) (tls : Tls)
    → IsValid tls
    → 1 ≤ cb
    → cb ≤ 8
    → ensure_page init_tls_page tls.tlspage ≡ some page
    → AllocResult page cb tls (dos_alloc_thread_local_memory init_tls_page cb true tls)
unfolding dos_alloc_thread_local_memory alloc_slots
dos_alloc_thread_local_memory-AllocResult init_tls_page page cb tls v some_slot few e =
    let small : ltb 8 cb ≡ false = ground arith in
    rw (small, e)
      (answer_search-AllocResult page cb tls v few some_slot _ (
        find_block-Search slot_count 0 cb (block_mask cb) tls.tlsmask (omega arith)
          (block_mask-Block cb few)))
