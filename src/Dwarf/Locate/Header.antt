-- ===== src/Dwarf/Locate/Header.antt =====
-- What the two searches find, and where find_elf_debug_lx reads too far.
use ine_debugger.Prelude.{ℕ, ◌+◌, ◌-◌, ◌<◌, ◌≤◌, ◌≡◌, arith, ◌⊎◌, inl, inr}
use ine_debugger.Prelude.{true, false, ◌&&◌, ◌||◌, not, Option, none, some, List, ◌∷◌}
use ine_debugger.Prelude.{
  ltb, leb, ◌==◌, if◌then◌else◌, get_elem?, length, Bool-cases, Option-cases,
}
use ine_debugger.Prelude.Word.{u32}
use mathlib.Core.Path.{subst}
use ine_debugger.Dwarf.Bytes.{◌>>=◌, read_u16_le, read_u32_le}
use ine_debugger.Dwarf.Locate.Trailer.{past_end}
use ine_debugger.Dwarf.Locate.{
  memcmp_equal, find_elf_debug_ne, find_elf_debug_lx, elf_magic, tis_magic, verified,
}

-- The bytes of an ELF header's start.
abbrev pub HasMagic : List ℕ → ℕ → Type 0
HasMagic file at =
    (get_elem? file at ≡ some 127)
    × (get_elem? file (at + 1) ≡ some 69)
    × (get_elem? file (at + 1 + 1) ≡ some 76)
    × (get_elem? file (at + 1 + 1 + 1) ≡ some 70)

compare_one :
    (file : List ℕ) (p e : ℕ) (es : List ℕ)
    → memcmp_equal file p (e ∷ es) ≡ some true
    → (get_elem? file p ≡ some e) × (memcmp_equal file (p + 1) es ≡ some true)
unfolding memcmp_equal
compare_one file p e es h = elim (Option-cases (get_elem? file p)) [
  | inl past ↦ absurd (ground (arith, h, past))
  | inr (b, at) ↦ elim (Option-cases (memcmp_equal file (p + 1) es)) [
    | inl past ↦ absurd (ground (arith, h, at, past))
    | inr (same, further) ↦ elim (Bool-cases (b == e && same)) [
      | inl equal ↦ (ground (arith, at, equal), ground (arith, further, equal))
      | inr other ↦ absurd (ground (arith, h, at, further, other))
    ]
  ]
]

verified-HasMagic :
    (file : List ℕ) (at k : ℕ) → verified file at ≡ some (some k) → (at ≡ k) × HasMagic file k
verified-HasMagic file at k h = elim (Option-cases (memcmp_equal file at elf_magic)) [
  | inl past ↦ absurd (ground (arith, h, past))
  | inr (false, e) ↦ absurd (ground (arith, h, e))
  | inr (true, e) ↦
      let same : at ≡ k = ground (arith, h, e) in
      let (e0, r0) = compare_one file at _ _ e in
      let (e1, r1) = compare_one file (at + 1) _ _ r0 in
      let (e2, r2) = compare_one file (at + 1 + 1) _ _ r1 in
      let (e3, r3) = compare_one file (at + 1 + 1 + 1) _ _ r2 in
      (same, subst (λ (t : ℕ). HasMagic file t) same (e0, e1, e2, e3))
]

ne-HasMagic : (file : List ℕ) (k : ℕ) → find_elf_debug_ne file ≡ some (some k) → HasMagic file k
unfolding find_elf_debug_ne
ne-HasMagic file k h = elim (Bool-cases (ltb (length file) 16)) [
  | inl short ↦ absurd (ground (arith, h, short))
  | inr long ↦ elim (Option-cases (memcmp_equal file (length file - 16) tis_magic)) [
    | inl past ↦ absurd (ground (arith, h, long, past))
    | inr (false, e) ↦ absurd (ground (arith, h, long, e))
    | inr (true, e) ↦ elim (Option-cases (read_u32_le file (length file - 16 + 12))) [
      | inl past ↦ absurd (ground (arith, h, long, e, past))
      | inr (info, word) ↦ elim (Bool-cases (info == 0 || ltb (u32 (length file)) info)) [
        | inl bad ↦ absurd (ground (arith, h, long, e, word, bad))
        | inr good ↦
            (verified-HasMagic file (length file - info) k
              (ground (arith, h, long, e, word, good))).1
      ]
    ]
  ]
]

-- The part of find_elf_debug_lx behind the offset of the header.
abbrev behind_offset : List ℕ → ℕ → Option (Option ℕ)
behind_offset file hdr = get_elem? file hdr >>= λ l. get_elem? file (hdr + 1) >>= λ x.
    if not (l == 76) || (not (x == 88) && not (x == 69))
    then some none
    else (read_u32_le file (hdr + 0x70) >>= λ dbg_off. read_u32_le file (hdr + 0x74) >>= λ dbg_len.
        if dbg_off == 0 || dbg_len == 0 || leb (u32 (length file)) dbg_off
        then some none
        else verified file dbg_off)

lx_header : (file : List ℕ) (k hdr : ℕ) → behind_offset file hdr ≡ some (some k) → HasMagic file k
lx_header file k hdr h = elim (Option-cases (get_elem? file hdr)) [
  | inl past ↦ absurd (ground (arith, h, past))
  | inr (l, el) ↦ elim (Option-cases (get_elem? file (hdr + 1))) [
    | inl past ↦ absurd (ground (arith, h, el, past))
    | inr (x, ex) ↦ elim (Bool-cases (not (l == 76) || (not (x == 88) && not (x == 69)))) [
      | inl bad ↦ absurd (ground (arith, h, el, ex, bad))
      | inr good ↦ elim (Option-cases (read_u32_le file (hdr + 0x70))) [
        | inl past ↦ absurd (ground (arith, h, el, ex, good, past))
        | inr (off, eo) ↦ elim (Option-cases (read_u32_le file (hdr + 0x74))) [
          | inl past ↦ absurd (ground (arith, h, el, ex, good, eo, past))
          | inr (len, en) ↦
              elim (Bool-cases (off == 0 || len == 0 || leb (u32 (length file)) off)) [
                | inl none_here ↦ absurd (ground (arith, h, el, ex, good, eo, en, none_here))
                | inr there ↦
                    (verified-HasMagic file off k
                      (ground (arith, h, el, ex, good, eo, en, there))).1
              ]
        ]
      ]
    ]
  ]
]

lx-HasMagic : (file : List ℕ) (k : ℕ) → find_elf_debug_lx file ≡ some (some k) → HasMagic file k
unfolding find_elf_debug_lx
lx-HasMagic file k h = elim (Bool-cases (ltb (length file) 64)) [
  | inl short ↦ absurd (ground (arith, h, short))
  | inr long ↦ elim (Option-cases (read_u16_le file 0x3c)) [
    | inl past ↦ absurd (ground (arith, h, long, past))
    | inr (hdr, word) ↦ elim (Bool-cases (hdr == 0 || leb (length file - 4) hdr)) [
      | inl bad ↦ absurd (ground (arith, h, long, word, bad))
      | inr good ↦ lx_header file k hdr (ground (arith, h, long, word, good))
    ]
  ]
]

-- A file whose LX header starts less than 113 bytes before its end makes find_elf_debug_lx read
-- outside of the file.
pub find_elf_debug_lx_outside :
    (file : List ℕ) (hdr : ℕ)
    → 64 ≤ length file
    → read_u16_le file 0x3c ≡ some hdr
    → 0 < hdr
    → hdr < length file - 4
    → length file ≤ hdr + 0x70
    → get_elem? file hdr ≡ some 76
    → get_elem? file (hdr + 1) ≡ some 88
    → find_elf_debug_lx file ≡ none
unfolding find_elf_debug_lx read_u32_le
find_elf_debug_lx_outside file hdr long word pos inside short l x =
    ground (arith, word, l, x, past_end file (hdr + 0x70) short)

-- An offset that either search answers is the offset of the four bytes of an ELF header's start
-- in the file.
pub find_elf_debug-HasMagic :
    (file : List ℕ) (k : ℕ)
    → (find_elf_debug_ne file ≡ some (some k)) ⊎ (find_elf_debug_lx file ≡ some (some k))
    → HasMagic file k
find_elf_debug-HasMagic file k (inl e) = ne-HasMagic file k e
find_elf_debug-HasMagic file k (inr e) = lx-HasMagic file k e
