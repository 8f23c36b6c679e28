-- ===== src/Doscalls/Tls/Undo.antt =====
-- Thread local memory: how a block is given back, and that this undoes the call that granted it.
use ine_debugger.Doscalls.Errors.{no_error, error_invalid_parameter}
use ine_debugger.Doscalls.Tls.{
  Tls, slot_count, block_mask, mask_at, enter_block, answer_search, alloc_slots, ensure_page,
  AllocAnswer, dos_alloc_thread_local_memory, slot_of, not_32, leave_block, free_slots,
  free_on_page, dos_free_thread_local_memory,
}
use ine_debugger.Doscalls.Tls.Masks.{
  Block, block_mask-Block, mask_at-Block, FreeSpan, Search, find_block-Search, bit-entered,
  bit-left,
}
use ine_debugger.Doscalls.Tls.Valid.{
  size_at, IsValid, FreeSpan-size, entered, entered-size, entered-IsValid,
}
use ine_debugger.Prelude.{ℕ, ◌+◌, ◌*◌, ◌≤◌, ◌<◌, ◌≡◌, refl, arith, ap, ◌∙◌}
use ine_debugger.Prelude.{true, false, Option, none, some, inl, inr, length-set}
use ine_debugger.Prelude.{
  lt→ltb, ltb→lt, ltb→le, ltb, ◌==◌, ==_iff, if◌then◌else◌, Bool-cases, get_or, set, bit_and,
  bit_or,
}
use ine_debugger.Prelude.{get_or-set, set_back, ◌⊎◌}
use ine_debugger.Prelude.Memory.{Outcome, ok}
use ine_debugger.Prelude.Digits.{bit, bit_le, bit_ext, bit-bit_and}

abbrev pub left : ℕ → ℕ → Tls → Tls
left slot mask tls = record tls {
  tlsmask = bit_and tls.tlsmask (not_32 mask);
  tlsallocs = set tls.tlsallocs slot 0;
}

module _ {tls : Tls} (v : IsValid tls) (slot mask : ℕ) (lt : slot < 32)
    (here : Block slot (size_at tls slot) mask) where
  left-size : (s : ℕ) → size_at (left slot mask tls) s ≡ (if slot == s then 0 else size_at tls s)
  left-size s = get_or-set tls.tlsallocs slot s 0 0 (omega (arith, v.table))

  left-IsValid : IsValid (left slot mask tls)
  left-IsValid = record {
    table = length-set tls.tlsallocs slot 0 ∙ v.table;
    small = λ s. ground (arith, left-size s, v.small s);
    marked = λ s b c. ground (
      arith,
      left-size s,
      v.marked s b,
      v.apart slot s b,
      bit-left slot _ mask tls.tlsmask b here,
    );
    owned = λ b used.
        let (s, c) =
          v.owned b
            (ground (arith, bit-bit_and b tls.tlsmask (not_32 mask), bit_le b tls.tlsmask)) in
        (s, ground (arith, left-size s, bit-left slot _ mask tls.tlsmask b here));
    apart = λ s t b c d. ground (arith, left-size s, left-size t, v.apart s t b);
  }

  -- The assert of the call.
  all_set : (bit_and tls.tlsmask mask == mask) ≡ true
  all_set = (==_iff (bit_and tls.tlsmask mask) mask).1 (
      bit_ext _ _ (λ b.
        ground
          (arith, bit-bit_and b tls.tlsmask mask, here b, v.marked slot b, bit_le b tls.tlsmask)))

  leave_block_lem : leave_block slot mask tls ≡ ok (no_error, left slot mask tls)
  unfolding leave_block
  leave_block_lem = rw all_set refl

-- Of a call that frees: nothing happens, and no block begins at the slot of the address; or that
-- block is gone, with the bits of its slots, and all else stays.
abbrev pub FreeResult : ℕ → Tls → Outcome (ℕ × Tls) → Type 0
FreeResult slot tls (ok (code, tls')) =
    ((code ≡ error_invalid_parameter) × (tls' ≡ tls) × (slot < 32 → size_at tls slot ≡ 0))
    ⊎ ((code ≡ no_error)
        × (slot < 32)
        × IsValid tls'
        × (0 < size_at tls slot)
        × ((s : ℕ) → size_at tls' s ≡ (if slot == s then 0 else size_at tls s)))
FreeResult slot tls _ = ⊥

free_slots-FreeResult :
    (slot : ℕ) (tls : Tls) → IsValid tls → FreeResult slot tls (free_slots slot tls)
unfolding free_slots
free_slots-FreeResult slot tls v = elim (Bool-cases (ltb slot slot_count)) [
  | inr high ↦ rw high (inl (refl, refl, λ lt. absurd (omega (arith, ltb→le _ _ high))))
  | inl low ↦ elim (Bool-cases (ltb 0 (size_at tls slot))) [
    | inr empty ↦ rw (low, empty) (inl (refl, refl, λ lt. ground (arith, empty)))
    | inl some_slot ↦
        let lt = ltb→lt _ _ low in
        let here = mask_at-Block slot (size_at tls slot) (v.small slot) in
        rw (low, some_slot, leave_block_lem v slot _ lt here)
          (inr (
            refl,
            lt,
            left-IsValid v slot _ lt here,
            ltb→lt _ _ some_slot,
            left-size v slot _ lt here,
          ))
  ]
]

-- Where the blocks and the mask agree, a call with any address ends without a failed assert. It is
-- refused, and nothing changes, if no block begins at the address; or it takes the block that begins
-- there out, no other block changes, and the blocks and the mask agree again.
pub dos_free_thread_local_memory-FreeResult :
    (page p : ℕ) (tls : Tls)
    → IsValid tls
    → tls.tlspage ≡ some page
    → FreeResult (slot_of page p) tls (dos_free_thread_local_memory p tls)
unfolding dos_free_thread_local_memory
dos_free_thread_local_memory-FreeResult page p tls v e =
    let result = ap (free_on_page p tls) e in
    rw result (free_slots-FreeResult (slot_of page p) tls v)

-- What a call that granted a block has done.
Entry : ℕ → ℕ → Tls → AllocAnswer → Type 0
Entry page cb tls (ok (code, some p, tls')) =
    (i : ℕ) × (mask : ℕ) × (i < 32)
    × Block i cb mask
    × FreeSpan i cb tls.tlsmask
    × (p ≡ page + 4 * i)
    × (tls' ≡ entered i cb mask (record tls { tlspage = some page }))
Entry page cb tls _ = Unit

answer_search-Entry :
    (page cb : ℕ) (tls : Tls) (answer : Option (ℕ × ℕ))
    → Search 0 cb tls.tlsmask answer
    → Entry page cb tls (answer_search page cb (record tls { tlspage = some page }) answer)
unfolding answer_search enter_block Entry
answer_search-Entry page cb tls none found = tt
answer_search-Entry page cb tls (some (i, mask)) (lt, here, empty, first) =
    elim (Bool-cases (get_or tls.tlsallocs i 0 == 0)) [
      | inl fresh ↦ rw fresh (i, mask, lt, here, empty, refl, refl)
      | inr taken ↦ rw taken tt
    ]

mask_back :
    {tls : Tls}
    → IsValid tls
    → (i cb mask mask' : ℕ) → Block i cb mask
    → Block i cb mask'
    → FreeSpan i cb tls.tlsmask
    → bit_and (bit_or tls.tlsmask mask) (not_32 mask') ≡ tls.tlsmask
mask_back {tls} v i cb mask mask' here here' empty = bit_ext _ _ λ b. elim (Bool-cases (ltb b 32)) [
  | inl low ↦ ground (
    arith,
    bit-left i cb mask' (bit_or tls.tlsmask mask) b here',
    bit-entered i cb mask tls.tlsmask b here,
    empty b,
    bit_le b tls.tlsmask,
  )
  | inr high ↦
      let unowned : bit b tls.tlsmask ≡ 0 = elim (Bool-cases (bit b tls.tlsmask == 1)) [
        | inl one ↦ let (s, c) = v.owned b (ground (arith, one)) in absurd (ground (arith, high))
        | inr zeroed ↦ ground (arith, zeroed, bit_le b tls.tlsmask)
      ] in
      ground (
        arith,
        bit-bit_and b (bit_or tls.tlsmask mask) (not_32 mask'),
        bit-entered i cb mask tls.tlsmask b here,
        unowned,
        high,
      )
]

slot_of_at : (page i : ℕ) → i < 32 → slot_of page (page + 4 * i) ≡ i
unfolding slot_of
slot_of_at page i lt = ground arith

undo :
    (page cb : ℕ) (tls : Tls) (i mask : ℕ)
    → IsValid tls
    → 1 ≤ cb
    → cb ≤ 8
    → i < 32
    → Block i cb mask
    → FreeSpan i cb tls.tlsmask
    → free_slots i (entered i cb mask (record tls { tlspage = some page }))
      ≡ ok (no_error, record tls { tlspage = some page })
unfolding free_slots
undo page cb tls i mask v some_slot few lt here empty =
    let tls' : Tls = record tls { tlspage = some page } in
    let v' : IsValid tls' = record {
      table = v.table;
      small = v.small;
      marked = v.marked;
      owned = v.owned;
      apart = v.apart;
    } in
    let size : size_at (entered i cb mask tls') i ≡ cb =
      ground (arith, entered-size v' i cb mask few some_slot lt here empty i) in
    let w = entered-IsValid v' i cb mask few some_slot lt here empty in
    let fresh = FreeSpan-size v i cb some_slot lt empty in
    let low = lt→ltb i 32 lt in
    let positive = lt→ltb 0 cb some_slot in
    let here' : Block i (size_at (entered i cb mask tls') i) (mask_at i cb) =
      rw size (mask_at-Block i cb few) in
    let left_mask = mask_back v i cb mask (mask_at i cb) here (mask_at-Block i cb few) empty in
    let left_table = set_back tls.tlsallocs i cb 0 fresh in
    rw (low, size, positive, leave_block_lem w i (mask_at i cb) lt here', left_mask, left_table)
      refl

-- A block that was granted for 1 to 8 slots is given back with its address: this succeeds, and the
-- blocks and the mask are as they were before both calls.
pub dos_free_thread_local_memory_undo :
    (init_tls_page : Option ℕ) (page cb code p : ℕ) (tls tls' : Tls)
    → IsValid tls
    → 1 ≤ cb
    → cb ≤ 8
    → ensure_page init_tls_page tls.tlspage ≡ some page
    → dos_alloc_thread_local_memory init_tls_page cb true tls ≡ ok (code, some p, tls')
    → dos_free_thread_local_memory p tls' ≡ ok (no_error, record tls { tlspage = some page })
unfolding dos_alloc_thread_local_memory alloc_slots Entry dos_free_thread_local_memory
dos_free_thread_local_memory_undo init_tls_page page cb code p tls tls' v some_slot few e granted =
    let small : ltb 8 cb ≡ false = ground arith in
    let entry : Entry page cb tls (dos_alloc_thread_local_memory init_tls_page cb true tls) =
      rw (small, e)
        (answer_search-Entry page cb tls _ (
          find_block-Search slot_count 0 cb (block_mask cb) tls.tlsmask (omega arith)
            (block_mask-Block cb few))) in
    let (i, mask, lt, here, empty, at, after) = rw granted at entry in
    rw (at, after, slot_of_at page i lt) (undo page cb tls i mask v some_slot few lt here empty)
