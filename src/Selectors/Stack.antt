-- ===== src/Selectors/Stack.antt =====
-- initOs2StackSegments: the tiles of a thread's stack, and their release.
use ine_debugger.Prelude.{ℕ, zero, suc, ◌+◌, ◌*◌, ◌/◌, ◌-◌, ◌≤◌, ◌<◌, ◌%◌, ◌≡◌, ◌≢◌, ◌⊎◌, arith}
use ine_debugger.Prelude.{
  Bool, true, false, some, refl, ap, inl, inr, Bool-cases, ◌==◌, ◌&&◌, ltb, leb, if◌then◌else◌,
}
use ine_debugger.Prelude.Word.{u16, add32, ◌>>◌}
use ine_debugger.Selectors.{
  max_slots, UserDesc, Loader, update, Contents, allocate_selector, free_selector,
}
use ine_debugger.Selectors.{stack_rounds, init_os2_stack_segments}

-- The slots of the tiles that a stack of `n` tiles from `base` on lies in.
abbrev pub in_stack : ℕ → ℕ → ℕ → Bool
in_stack base n j = leb (base / 0x10000) j && ltb j (base / 0x10000 + n)

-- Free slots of the stack hold their own tile, all others what they held.
abbrev pub tiled_slot : ℕ → ℕ → (ℕ → ℕ) → ℕ → ℕ
tiled_slot base n ldt j = if in_stack base n j && (ldt j == 0) then j * 0x10000 else ldt j

-- What is left once those slots are released.
abbrev pub released_slot : ℕ → ℕ → (ℕ → ℕ) → ℕ → ℕ
released_slot base n ldt j = if in_stack base n j then 0 else ldt j

abbrev descriptor : ℕ → ℕ → UserDesc
descriptor slot base = record {
  entry_number = slot;
  base_addr = base;
  limit = 16;
  seg_32bit = false;
  contents = Contents.contents_data;
  read_exec_only = false;
  limit_in_pages = true;
  seg_not_present = false;
  useable = true;
}

abbrev released : ℕ → UserDesc
released slot = record {
  entry_number = slot;
  base_addr = 0;
  limit = 0;
  seg_32bit = false;
  contents = Contents.contents_data;
  read_exec_only = true;
  limit_in_pages = false;
  seg_not_present = true;
  useable = false;
}

module _ (modify_ldt : UserDesc → Bool) (grants : (d : UserDesc) → modify_ldt d ≡ true) where
  take_tile :
      (base slot : ℕ) (s : Loader)
      → slot < max_slots
      → slot * 0x10000 ≡ base
      → (ok : Bool) × (t : Loader) × (allocate_selector modify_ldt slot 16 base
            Contents.contents_data false s
          ≡ some (ok, t))
        × ((j : ℕ) → t.ldt j ≡ (if (slot == j) && (s.ldt j == 0) then j * 0x10000 else s.ldt j))
  unfolding allocate_selector
  take_tile base slot s lt e = elim (Bool-cases (s.ldt slot == 0)) [
    | inl free ↦ (
      true,
      record s { ldt = update s.ldt slot base },
      ground (arith, grants (descriptor slot base)),
      λ j. ground arith,
    )
    | inr used ↦ (false, s, ground arith, λ j. ground arith)
  ]

  stack_rounds_tiles :
      (n base : ℕ) (s : Loader)
      → base % 0x10000 ≡ 0
      → base + n * 0x10000 ≤ 0x20000000
      → (t : Loader) × (stack_rounds modify_ldt n base false s ≡ some t)
        × ((j : ℕ) → t.ldt j ≡ tiled_slot base n s.ldt j)
  unfolding stack_rounds
  stack_rounds_tiles zero base s al fit = (s, refl, λ j. ground arith)
  stack_rounds_tiles (suc n) base s al fit =
      let (ok, t, e, at) = take_tile base (base / 0x10000) s (omega arith) (omega arith) in
      let (u, e', at') = stack_rounds_tiles n (base + 0x10000) t (omega arith) (omega arith) in
      let slot : u16 (base >> 16) ≡ base / 0x10000 = omega arith in
      let next : add32 base 0x10000 ≡ base + 0x10000 = omega arith in
      (u, ground (arith, e, e', slot, next), λ j. ground (arith, at j, at' j))

  free_tile :
      (slot : ℕ) (s : Loader)
      → slot < max_slots
      → (t : Loader) × (free_selector modify_ldt slot s ≡ some t)
        × ((j : ℕ) → t.ldt j ≡ (if slot == j then 0 else s.ldt j))
  unfolding free_selector
  free_tile slot s lt = elim (Bool-cases (s.ldt slot == 0)) [
    | inl free ↦ (s, ground arith, λ j. ground arith)
    | inr used ↦ (
      record s { ldt = update s.ldt slot 0 },
      ground (arith, grants (released slot)),
      λ j. ground arith,
    )
  ]

  stack_rounds_release :
      (n base : ℕ) (s : Loader)
      → base % 0x10000 ≡ 0
      → base + n * 0x10000 ≤ 0x20000000
      → (t : Loader) × (stack_rounds modify_ldt n base true s ≡ some t)
        × ((j : ℕ) → t.ldt j ≡ released_slot base n s.ldt j)
  unfolding stack_rounds
  stack_rounds_release zero base s al fit = (s, refl, λ j. ground arith)
  stack_rounds_release (suc n) base s al fit =
      let (t, e, at) = free_tile (base / 0x10000) s (omega arith) in
      let (u, e', at') = stack_rounds_release n (base + 0x10000) t (omega arith) (omega arith) in
      let slot : u16 (base >> 16) ≡ base / 0x10000 = omega arith in
      let next : add32 base 0x10000 ≡ base + 0x10000 = omega arith in
      (u, ground (arith, e, e', slot, next), λ j. ground (arith, at j, at' j))

  -- Where the kernel grants every request and the stack ends below 512 MB, setting up its tiles
  -- succeeds: afterwards the free slot of every address in the stack holds that address's tile,
  -- slots that were in use keep theirs, and no slot outside the stack changes.
  pub init_os2_stack_segments_tiles :
      (addr stacklen : ℕ) (s : Loader)
      → addr + stacklen ≤ 0x20000000
      → (t : Loader) × (init_os2_stack_segments modify_ldt addr stacklen false s ≡ some t)
        × ((a : ℕ)
            → addr ≤ a
            → a < addr + stacklen
            → s.ldt (a / 0x10000) ≡ 0
            → t.ldt (a / 0x10000) ≡ a - a % 0x10000)
        × ((j : ℕ) → s.ldt j ≢ 0 → t.ldt j ≡ s.ldt j)
        × ((j : ℕ) → (j < addr / 0x10000) ⊎ (addr + stacklen ≤ j * 0x10000) → t.ldt j ≡ s.ldt j)
  unfolding init_os2_stack_segments
  init_os2_stack_segments_tiles addr stacklen s fit =
      let base = addr - addr % 0x10000 in
      let n = (stacklen + addr % 0x10000 + 0xFFFF) / 0x10000 in
      let (t, e, at) = stack_rounds_tiles n base s (omega arith) (omega arith) in
      (
        t,
        ground (arith, e),
        λ a lo hi free. ground (arith, at (a / 0x10000)),
        λ j used. ground (arith, at j),
        λ j out. ground (arith, at j),
      )

  -- Releasing the stack's tiles undoes that, for a stack that is not empty: where the slots of the stack were free before, every
  -- slot reads as it did.
  pub init_os2_stack_segments_undo :
      (addr stacklen : ℕ) (s t : Loader)
      → 0 < stacklen
      → addr + stacklen ≤ 0x20000000
      → ((a : ℕ) → addr ≤ a → a < addr + stacklen → s.ldt (a / 0x10000) ≡ 0)
      → init_os2_stack_segments modify_ldt addr stacklen false s ≡ some t
      → (u : Loader) × (init_os2_stack_segments modify_ldt addr stacklen true t ≡ some u)
        × ((j : ℕ) → u.ldt j ≡ s.ldt j)
  unfolding init_os2_stack_segments
  init_os2_stack_segments_undo addr stacklen s t pos fit free h =
      let base = addr - addr % 0x10000 in
      let n = (stacklen + addr % 0x10000 + 0xFFFF) / 0x10000 in
      let (t', e, at) = stack_rounds_tiles n base s (omega arith) (omega arith) in
      let (u, e', at') = stack_rounds_release n base t (omega arith) (omega arith) in
      let same : t' ≡ t = ground (arith, e, h) in
      (
        u,
        ground (arith, e'),
        λ j.
            ground (
              arith,
              at' j,
              at j,
              ap (λ (r : Loader). r.ldt j) same,
              free addr,
              free (j * 0x10000),
            ),
      )
