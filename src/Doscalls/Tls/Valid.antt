-- ===== src/Doscalls/Tls/Valid.antt =====
-- Thread local memory: the blocks and the mask agree, and each call keeps it so.
use ine_debugger.Doscalls.Tls.{Tls, slot_count}
use ine_debugger.Doscalls.Tls.Masks.{span, Block, FreeSpan, bit-entered}
use ine_debugger.Prelude.{ℕ, ◌≤◌, ◌<◌, ◌≡◌, arith, ◌∙◌}
use ine_debugger.Prelude.{inl, inr, length, length-set, get_or-set}
use ine_debugger.Prelude.{◌==◌, if◌then◌else◌, Bool-cases, get_or, set, bit_or}
use ine_debugger.Prelude.Digits.{bit}

-- The size of the block that begins at a slot, 0 where none does.
abbrev pub size_at : Tls → ℕ → ℕ
size_at tls s = get_or tls.tlsallocs s 0

-- Slot `b` is one of the block that begins at `s`.
abbrev pub Covers : Tls → ℕ → ℕ → Type 0
Covers tls s b = span s (size_at tls s) b ≡ 1

pub record IsValid (tls : Tls) : Type 0 where
  pub table : length tls.tlsallocs ≡ slot_count
  pub small : (s : ℕ) → size_at tls s ≤ 8
  pub marked : (s b : ℕ) → Covers tls s b → bit b tls.tlsmask ≡ 1
  pub owned : (b : ℕ) → bit b tls.tlsmask ≡ 1 → (s : ℕ) × Covers tls s b
  pub apart : (s t b : ℕ) → Covers tls s b → Covers tls t b → s ≡ t

-- A free span of at least one slot begins where no block does: the assert holds.
pub FreeSpan-size :
    {tls : Tls}
    → IsValid tls
    → (i cb : ℕ) → 1 ≤ cb
    → i < 32
    → FreeSpan i cb tls.tlsmask
    → size_at tls i ≡ 0
FreeSpan-size {tls} v i cb some_slot lt empty = ground (arith, v.marked i i, empty i)

abbrev pub entered : ℕ → ℕ → ℕ → Tls → Tls
entered i cb mask tls = record tls {
  tlsallocs = set tls.tlsallocs i cb;
  tlsmask = bit_or tls.tlsmask mask;
}

module _ {tls : Tls} (v : IsValid tls) (i cb mask : ℕ) (few : cb ≤ 8) (some_slot : 1 ≤ cb)
    (lt : i < 32) (here : Block i cb mask) (empty : FreeSpan i cb tls.tlsmask) where
  pub entered-size :
      (s : ℕ) → size_at (entered i cb mask tls) s ≡ (if i == s then cb else size_at tls s)
  entered-size s = get_or-set tls.tlsallocs i s cb 0 (omega (arith, v.table))

  pub entered-IsValid : IsValid (entered i cb mask tls)
  entered-IsValid = record {
    table = length-set tls.tlsallocs i cb ∙ v.table;
    small = λ s. ground (arith, entered-size s, v.small s);
    marked = λ s b c.
        ground (arith, entered-size s, v.marked s b, bit-entered i cb mask tls.tlsmask b here);
    owned = λ b used. elim (Bool-cases (span i cb b == 1)) [
      | inl inside ↦ (i, ground (arith, inside, entered-size i))
      | inr outside ↦
          let (s, c) =
            v.owned b (ground (arith, outside, bit-entered i cb mask tls.tlsmask b here)) in
          (s, ground (arith, entered-size s, FreeSpan-size v i cb some_slot lt empty))
    ];
    apart = λ s t b c d.
        ground (
          arith,
          entered-size s,
          entered-size t,
          v.marked s b,
          v.marked t b,
          empty b,
          v.apart s t b,
        );
  }
