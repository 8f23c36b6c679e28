-- ===== src/Selectors/Translate.antt =====
-- 16:16 addresses: lxConvert32to1616 and lxConvert1616to32 undo each other.
use ine_debugger.Prelude.{ℕ, ◌+◌, ◌*◌, ◌≤◌, ◌<◌, ◌%◌, ◌^◌, ◌≡◌, ◌≢◌, arith, bit_or}
use ine_debugger.Prelude.{Bool, Option, none, some, refl, ap}
use ine_debugger.Prelude.Bits.{shifted-bit_or}
use ine_debugger.Prelude.Word.{IsU32, u16, u32, ◌<<◌, ◌>>◌}
use ine_debugger.Selectors.{max_slots, UserDesc, Loader, selector_to_segment, find_selector}
use ine_debugger.Selectors.{convert_32_to_1616, convert_1616_to_32}
use ine_debugger.Selectors.Scan.{Holds}
use ine_debugger.Selectors.Find.{find_selector-Holds, find_selector-Outcome, Outcome, with_tile}
use ine_debugger.Selectors.Table.{IsTable}
use ine_debugger.Selectors.Find.{existing, full, refused, fresh, answer-injective}

-- The packed address in plain arithmetic.
pub far_address :
    (selector offset : ℕ)
    → selector < max_slots
    → offset < 0x10000
    → bit_or (u32 (selector_to_segment selector << 16)) offset
      ≡ (selector * 8 + 7) * 0x10000 + offset
far_address selector offset h k = omega (
  arith,
  shifted-bit_or 3 selector 7 (omega arith),
  shifted-bit_or 16 (selector * 8 + 7) offset (omega arith),
  ap (λ (t : ℕ). bit_or t offset) word,
)
  where
    word : u32 (selector_to_segment selector << 16) ≡ (selector * 8 + 7) * 2 ^ 16
    word = omega (arith, shifted-bit_or 3 selector 7 (omega arith))

pub convert_1616_to_32_far :
    (s : Loader) (addr selector offset : ℕ)
    → IsU32 addr
    → Holds s.ldt addr selector offset
    → convert_1616_to_32 s ((selector * 8 + 7) * 0x10000 + offset) ≡ some addr
unfolding convert_1616_to_32
convert_1616_to_32_far s addr selector offset u h =
    let slot : u16 (((selector * 8 + 7) * 0x10000 + offset) >> 19) ≡ selector = omega arith in
    let rest : ((selector * 8 + 7) * 0x10000 + offset) % 0x10000 ≡ offset = omega arith in
    ground (arith, slot, rest)

-- The conversion of a selector whose slot reads 0 fails its assert.
convert_1616_to_32_free :
    (s : Loader) (selector offset : ℕ)
    → selector < max_slots
    → offset < 0x10000
    → s.ldt selector ≡ 0
    → convert_1616_to_32 s ((selector * 8 + 7) * 0x10000 + offset) ≡ none
unfolding convert_1616_to_32
convert_1616_to_32_free s selector offset h k free =
    let slot : u16 (((selector * 8 + 7) * 0x10000 + offset) >> 19) ≡ selector = omega arith in
    ground (arith, slot)

module _ (modify_ldt : UserDesc → Bool) where
  -- What a conversion that does not answer 0 has got from the search.
  convert_32_to_1616_found :
      (addr far : ℕ) (s s' : Loader)
      → convert_32_to_1616 modify_ldt addr s ≡ some (far, s')
      → far ≢ 0
      → (selector : ℕ) × (offset : ℕ) × (find_selector modify_ldt addr none s
          ≡ some (some (selector, offset), s'))
        × (far ≡ bit_or (u32 (selector_to_segment selector << 16)) offset)
  unfolding convert_32_to_1616
  convert_32_to_1616_found addr far s s' h ne = go (find_selector modify_ldt addr none s) refl
    where
      go :
          (r : Option (Option (ℕ × ℕ) × Loader))
          → find_selector modify_ldt addr none s ≡ r
          → (selector : ℕ) × (offset : ℕ) × (find_selector modify_ldt addr none s
              ≡ some (some (selector, offset), s'))
            × (far ≡ bit_or (u32 (selector_to_segment selector << 16)) offset)
      go none e = ground arith
      go (some (none, t)) e = ground arith
      go (some (some (selector, offset), t)) e = (selector, offset, ground arith, ground arith)

  -- A flat 32-bit address from 64k on, once converted, is read back as itself by the table that
  -- the conversion leaves, unless the conversion failed with 0.
  pub convert_1616_to_32-convert_32_to_1616 :
      (addr far : ℕ) (s s' : Loader)
      → IsU32 addr
      → 0x10000 ≤ addr
      → convert_32_to_1616 modify_ldt addr s ≡ some (far, s')
      → far ≢ 0
      → convert_1616_to_32 s' far ≡ some addr
  convert_1616_to_32-convert_32_to_1616 addr far s s' u lo h ne =
      let (selector, offset, e, q) = convert_32_to_1616_found addr far s s' h ne in
      let (holds, kept) = find_selector-Holds modify_ldt addr none s s' selector offset lo e in
      rw (q, far_address selector offset holds.in_range holds.small)
        (convert_1616_to_32_far s' addr selector offset u holds)

  -- An address from 4096 up to 64k is given a selector all the same, on a well-formed
  -- table; but its tile is the one at 0, which the table cannot tell from a free slot:
  -- the way back fails its assert.
  pub convert_low_address :
      (addr far : ℕ) (s s' : Loader)
      → IsTable s
      → 4096 ≤ addr
      → addr < 0x10000
      → convert_32_to_1616 modify_ldt addr s ≡ some (far, s')
      → far ≢ 0
      → convert_1616_to_32 s' far ≡ none
  convert_low_address addr far s s' table lo hi h ne =
      let (selector, offset, e, q) = convert_32_to_1616_found addr far s s' h ne in
      go selector offset q (find_selector-Outcome modify_ldt addr none s lo) e
    where
      go :
          (selector offset : ℕ)
          → far ≡ bit_or (u32 (selector_to_segment selector << 16)) offset
          → {r : Option (Option (ℕ × ℕ) × Loader)} → Outcome modify_ldt addr s r
          → r ≡ some (some (selector, offset), s')
          → convert_1616_to_32 s' far ≡ none
      go selector offset q (existing sel off hd) e =
          absurd (omega (arith, table.aligned sel, hd.in_use, hd.adds_up))
      go selector offset q (full f) e = cc
      go selector offset q (refused d r) e = cc
      go selector offset q (fresh slot lt free skips) e =
          let (p, o, t) = answer-injective e in
          rw (q, ← p, ← o, ← t, far_address slot (addr % 0x10000) lt (omega arith))
            (convert_1616_to_32_free (with_tile s addr slot) slot (addr % 0x10000) lt (omega arith)
              (ground arith))
