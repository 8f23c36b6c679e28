-- ===== src/Lx/Fixup/Sources.antt =====
-- lx_loader.c, fixupPage and doFixup: the bytes that each kind of source writes, and where.
use ine_debugger.Prelude.{ℕ, ◌+◌, ◌/◌, ◌%◌, ◌≡◌, refl, ap, ◌∙◌, arith, inl, inr}
use ine_debugger.Prelude.{◌||◌, Option, none, some, List, [], ◌∷◌, length, set}
use ine_debugger.Prelude.{ltb, ◌==◌, if◌then◌else◌, Bool-cases}
use ine_debugger.Prelude.Memory.{
  Outcome, ok, crash, halt, ◌>>=◌, bind_assoc, bind_cong, store8, store16, store32,
}
use ine_debugger.Prelude.Word.{add32, sub32}
use ine_debugger.Lx.Fixup.{do_fixup, size_of, fix_source, sext16}

-- Bytes written one behind the other, as long as there is memory.
abbrev pub written : List ℕ → ℕ → List ℕ → Outcome (List ℕ)
written mem at [] = ok mem
written mem at (b ∷ bs) =
    (if ltb at (length mem) then ok (set mem at b) else crash) >>= λ mem'. written mem' (at + 1) bs

-- The lowest two and four bytes of a number, lowest first.
abbrev pub low_16 : ℕ → List ℕ
low_16 v = v % 256 ∷ v / 256 % 256 ∷ []

abbrev pub low_32 : ℕ → List ℕ
low_32 v = v % 256 ∷ v / 256 % 256 ∷ v / 65536 % 256 ∷ v / 65536 / 256 % 256 ∷ []

-- The bytes of a source that is one field, by its kind: a byte; a selector or an offset of 16 bits; a
-- 16:16 pointer or an offset of 32 bits; the distance from behind the field.
abbrev pub field : ℕ → ℕ → ℕ → Option (List ℕ)
field kind at value =
    if kind == 8
    then some (low_32 (sub32 value (add32 at 4)))
    else (if kind == 7 || kind == 3
        then some (low_32 value)
        else (if kind == 5 || kind == 2
            then some (low_16 value)
            else (if kind == 0 then some (value % 256 ∷ []) else none)))

-- One source, whose place is counted from the page on, backwards too. A 16:32 pointer has two fields.
abbrev pub source_meaning : ℕ → ℕ → ℕ → ℕ → ℕ → List ℕ → Outcome (List ℕ)
source_meaning page kind value second offset mem =
    let at = add32 page (sext16 offset) in
    if kind == 6
    then (written mem at (low_32 value) >>= λ mem'. written mem' (add32 at 4) (low_16 second))
    else elim (field kind at value) [ none ↦ halt | some bytes ↦ written mem at bytes ]

bind_ok : (x : Outcome (List ℕ)) → x ≡ (x >>= λ mem. ok mem)
bind_ok (ok mem) = refl
bind_ok crash = refl
bind_ok halt = refl
bind_ok Outcome.stuck = refl

store8-written : (mem : List ℕ) (at v : ℕ) → store8 mem at v ≡ written mem at (v % 256 ∷ [])
unfolding store8
store8-written mem at v = bind_ok (if ltb at (length mem) then ok (set mem at (v % 256)) else crash)

store16-written : (mem : List ℕ) (at v : ℕ) → store16 mem at v ≡ written mem at (low_16 v)
unfolding store16 store8
store16-written mem at v =
    bind_cong (store8 mem at v) _ _ (λ mem'. store8-written mem' (at + 1) (v / 256))

store32-written : (mem : List ℕ) (at v : ℕ) → store32 mem at v ≡ written mem at (low_32 v)
unfolding store32 store16 store8
store32-written mem at v =
    let two : at + 2 ≡ at + 1 + 1 = omega arith in
    bind_assoc (store8 mem at v) _ _
    ∙ bind_cong (store8 mem at v) _ _ (λ mem'.
      bind_cong (store8 mem' (at + 1) (v / 256)) _ _
        (λ mem2. rw two (store16-written mem2 (at + 1 + 1) (v / 65536))))

pointer-written :
    (mem : List ℕ) (at value second : ℕ)
    → (store32 mem at value >>= λ mem'. store16 mem' (add32 at 4) second)
      ≡ (written mem at (low_32 value) >>= λ mem'. written mem' (add32 at 4) (low_16 second))
pointer-written mem at value second =
    ap (λ (x : Outcome (List ℕ)). x >>= λ mem'. store16 mem' (add32 at 4) second)
      (store32-written mem at value)
    ∙ bind_cong (written mem at (low_32 value)) _ _
        (λ mem'. store16-written mem' (add32 at 4) second)

-- What is done to a source is what its kind means.
pub fix_source-meaning :
    (page kind value second offset : ℕ) (mem : List ℕ)
    → fix_source page kind value second offset mem
      ≡ source_meaning page kind value second offset mem
unfolding fix_source do_fixup size_of
fix_source-meaning page kind value second offset mem =
    let at = add32 page (sext16 offset) in
    elim (Bool-cases (kind == 8)) [
      | inl distance ↦
          let k : kind ≡ 8 = ground (arith, distance) in
          rw k (store32-written mem at (sub32 value (add32 at 4)))
      | inr not8 ↦ elim (Bool-cases (kind == 6)) [
        | inl pointer ↦
            let k : kind ≡ 6 = ground (arith, pointer) in rw k (pointer-written mem at value second)
        | inr not6 ↦ elim (Bool-cases (kind == 7)) [
          | inl flat ↦
              let k : kind ≡ 7 = ground (arith, flat) in rw k (store32-written mem at value)
          | inr not7 ↦ elim (Bool-cases (kind == 3)) [
            | inl far ↦
                let k : kind ≡ 3 = ground (arith, far) in rw k (store32-written mem at value)
            | inr not3 ↦ elim (Bool-cases (kind == 5)) [
              | inl near ↦
                  let k : kind ≡ 5 = ground (arith, near) in rw k (store16-written mem at value)
              | inr not5 ↦ elim (Bool-cases (kind == 2)) [
                | inl selector ↦
                    let k : kind ≡ 2 = ground (arith, selector) in
                    rw k (store16-written mem at value)
                | inr not2 ↦ elim (Bool-cases (kind == 0)) [
                  | inl byte ↦
                      let k : kind ≡ 0 = ground (arith, byte) in rw k (store8-written mem at value)
                  | inr not0 ↦ rw (not8, not6, not7, not3, not5, not2, not0) refl
                ]
              ]
            ]
          ]
        ]
      ]
    ]
