-- ===== src/Lx/Sanity/Within.antt =====
-- lx_loader.c: where the checks of a header read.
use ine_debugger.Prelude.{ℕ, suc, zero, ◌+◌, ◌^◌, ◌<◌, ◌≤◌, ◌≡◌, refl, arith, inl, inr}
use ine_debugger.Prelude.{false, ◌&&◌, none, some, List, [], ◌∷◌, length, get_elem?}
use ine_debugger.Prelude.{ltb, leb, ◌==◌, Bool-cases}
use ine_debugger.Prelude.Word.{sub32}
use ine_debugger.Prelude.Memory.{Outcome, ok, ◌>>=◌, load8, load16, load32}
use ine_debugger.Lx.Sanity.{
  sanity_check_lx_module, sanity_check_ne_module, check_magic, sanity_check_module,
}

abbrev pub Ends {ℓ} : {A : Type ℓ} → Outcome A → Type ℓ
Ends {A = A} x = (a : A) × (x ≡ ok a)

there : (mem : List ℕ) (p : ℕ) → p < length mem → (b : ℕ) × (get_elem? mem p ≡ some b)
there [] p h = absurd (omega (arith, h))
there (b ∷ mem) zero h = (b, refl)
there (b ∷ mem) (suc p) h = there mem p (omega (arith, h))

bind-Ends {ℓ κ} :
    {A : Type ℓ} {B : Type κ} (x : Outcome A) (f : A → Outcome B)
    → Ends x
    → ((a : A) → Ends (f a))
    → Ends (x >>= f)
bind-Ends x f (a, e) h = let (b, e') = h a in (b, rw e e')

load8-Ends : (mem : List ℕ) (p : ℕ) → p < length mem → Ends (load8 mem p)
unfolding load8
load8-Ends mem p h = let (b, e) = there mem p h in (b, rw (load8, e))

load16-Ends : (mem : List ℕ) (p : ℕ) → p + 1 < length mem → Ends (load16 mem p)
unfolding load16
load16-Ends mem p h =
    bind-Ends _ _ (load8-Ends mem p (omega (arith, h)))
      (λ low. bind-Ends _ _ (load8-Ends mem (p + 1) h) (λ high. (_, refl)))

load32-Ends : (mem : List ℕ) (p : ℕ) → p + 3 < length mem → Ends (load32 mem p)
unfolding load32
load32-Ends mem p h =
    bind-Ends _ _ (load16-Ends mem p (omega (arith, h)))
      (λ low. bind-Ends _ _ (load16-Ends mem (p + 2) (omega (arith, h))) (λ high. (_, refl)))

lx_module-Ends :
    (exe : List ℕ) (p exelen : ℕ)
    → p + exelen ≤ length exe
    → Ends (sanity_check_lx_module exe p exelen)
unfolding sanity_check_lx_module
lx_module-Ends exe p exelen h = elim (Bool-cases (leb exelen 172)) [
  | inl small ↦ rw small (false, refl)
  | inr large ↦
      let room : 172 < exelen = ground (arith, large) in
      rw large (
        bind-Ends _ _ (load8-Ends exe (p + 2) (omega (arith, h, room))) (λ a.
          bind-Ends _ _ (load8-Ends exe (p + 3) (omega (arith, h, room))) (λ b.
            bind-Ends _ _ (load32-Ends exe (p + 4) (omega (arith, h, room))) (λ c.
              bind-Ends _ _ (load16-Ends exe (p + 8) (omega (arith, h, room))) (λ d.
                bind-Ends _ _ (load16-Ends exe (p + 10) (omega (arith, h, room))) (λ e.
                  bind-Ends _ _ (load32-Ends exe (p + 40) (omega (arith, h, room))) (λ f.
                    bind-Ends _ _ (load32-Ends exe (p + 16) (omega (arith, h, room)))
                      (λ g. (_, refl)))))))))
]

ne_module-Ends :
    (exe : List ℕ) (p exelen : ℕ)
    → p + exelen ≤ length exe
    → Ends (sanity_check_ne_module exe p exelen)
unfolding sanity_check_ne_module
ne_module-Ends exe p exelen h = elim (Bool-cases (leb exelen 64)) [
  | inl small ↦ rw small (false, refl)
  | inr large ↦
      let room : 64 < exelen = ground (arith, large) in
      rw large (bind-Ends _ _ (load8-Ends exe (p + 54) (omega (arith, h, room))) (λ a. (_, refl)))
]

check_magic-Ends :
    (exe : List ℕ) (p exelen m0 m1 : ℕ)
    → p + exelen ≤ length exe
    → Ends (check_magic exe p exelen m0 m1)
unfolding check_magic
check_magic-Ends exe p exelen m0 m1 h = elim (Bool-cases ((m0 == 76) && (m1 == 88))) [
  | inl lx ↦ rw lx (bind-Ends _ _ (lx_module-Ends exe p exelen h) (λ b. (_, refl)))
  | inr other ↦ elim (Bool-cases ((m0 == 78) && (m1 == 69))) [
    | inl ne ↦ rw (other, ne) (bind-Ends _ _ (ne_module-Ends exe p exelen h) (λ b. (_, refl)))
    | inr neither ↦ rw (other, neither) (none, refl)
  ]
]

-- A file of at least 64 bytes, and below 2 ^ 32, whose header starts at least two bytes before its
-- end is checked without a read outside of it, whatever its bytes are.
pub sanity_check_module-Ends :
    (exe : List ℕ) (header_offset : ℕ)
    → 64 ≤ length exe
    → length exe < 2 ^ 32
    → load32 exe 0x3c ≡ ok header_offset
    → header_offset + 2 ≤ length exe
    → Ends (sanity_check_module exe)
unfolding sanity_check_module
sanity_check_module-Ends exe header_offset some_bytes bound at inside =
    let large : ltb (length exe) 62 ≡ false = ground (arith, some_bytes) in
    let rest : header_offset + sub32 (length exe) header_offset ≤ length exe =
      omega (arith, bound, inside) in
    rw (large, at)
      (bind-Ends _ _ (load8-Ends exe header_offset (omega (arith, inside))) (λ m0.
        bind-Ends _ _ (load8-Ends exe (header_offset + 1) (omega (arith, inside)))
          (λ m1. check_magic-Ends exe header_offset (sub32 (length exe) header_offset) m0 m1 rest)))
