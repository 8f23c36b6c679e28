-- ===== src/Prelude/Memory.antt =====
-- How a C routine ends, and memory as a list of bytes with little-endian loads and stores.
pub mod Reads
pub mod Writes
use Prim.Native.Nat.{ℕ, zero, suc, ◌+◌, ◌*◌, ◌/◌, ◌%◌, ◌^◌}
use mathlib.Core.Path.{◌≡◌, refl}
use mathlib.Core.Bool.{Bool, true, false, not}
use mathlib.Core.Option.{Option, none, some}
use mathlib.Core.List.{List, [], ◌∷◌}
use ine_debugger.Prelude.Tests.{ltb, ◌==◌, if◌then◌else◌}
use ine_debugger.Prelude.Lists.{get_elem?, set, length}
use Prim.Native.Nat.{bit_and}

-- With a result, by an access outside of a buffer, by an assert or an exit, or not within its fuel.
pub data Outcome {ℓ} (A : Type ℓ) : Type ℓ where
  ok : A → Outcome A
  crash : Outcome A
  halt : Outcome A
  stuck : Outcome A

infixl 5 ◌>>=◌
abbrev pub ◌>>=◌ {ℓ κ} : {A : Type ℓ} {B : Type κ} → Outcome A → (A → Outcome B) → Outcome B
ok a >>= f = f a
crash >>= f = crash
halt >>= f = halt
stuck >>= f = stuck

pub bind_assoc {ℓ κ υ} :
    {A : Type ℓ} {B : Type κ} {C : Type υ} (x : Outcome A) (f : A → Outcome B) (g : B → Outcome C)
    → (x >>= f >>= g) ≡ (x >>= λ a. f a >>= g)
bind_assoc (ok a) f g = refl
bind_assoc crash f g = refl
bind_assoc halt f g = refl
bind_assoc stuck f g = refl

pub bind_cong {ℓ κ} :
    {A : Type ℓ} {B : Type κ} (x : Outcome A) (f g : A → Outcome B)
    → ((a : A) → f a ≡ g a)
    → (x >>= f) ≡ (x >>= g)
bind_cong (ok a) f g same = same a
bind_cong crash f g same = refl
bind_cong halt f g same = refl
bind_cong stuck f g same = refl

-- The same, with what is known of the result of the first step.
pub bind_cong_ok {ℓ κ} :
    {A : Type ℓ} {B : Type κ} (x : Outcome A) (f g : A → Outcome B)
    → ((a : A) → x ≡ ok a → f a ≡ g a)
    → (x >>= f) ≡ (x >>= g)
bind_cong_ok (ok a) f g same = same a refl
bind_cong_ok crash f g same = refl
bind_cong_ok halt f g same = refl
bind_cong_ok stuck f g same = refl

-- A chain that ends well has done so at each step.
pub ok_of_bind {ℓ κ} :
    {A : Type ℓ} {B : Type κ} (x : Outcome A) (f : A → Outcome B) (b : B)
    → (x >>= f) ≡ ok b
    → (a : A) × (x ≡ ok a) × (f a ≡ ok b)
ok_of_bind (ok a) f b e = (a, refl, e)
ok_of_bind crash f b e = cc
ok_of_bind halt f b e = cc
ok_of_bind stuck f b e = cc

unfoldable pub load8 : List ℕ → ℕ → Outcome ℕ
load8 mem p = elim (get_elem? mem p) [ none ↦ crash | some b ↦ ok b ]

unfoldable pub load16 : List ℕ → ℕ → Outcome ℕ
load16 mem p = do low ← load8 mem p; high ← load8 mem (p + 1); ok (low + 256 * high)

unfoldable pub load32 : List ℕ → ℕ → Outcome ℕ
load32 mem p = do low ← load16 mem p; high ← load16 mem (p + 2); ok (low + 65536 * high)

unfoldable pub store8 : List ℕ → ℕ → ℕ → Outcome (List ℕ)
store8 mem p v = if ltb p (length mem) then ok (set mem p (v % 256)) else crash

unfoldable pub store16 : List ℕ → ℕ → ℕ → Outcome (List ℕ)
store16 mem p v = do mem' ← store8 mem p v; store8 mem' (p + 1) (v / 256)

unfoldable pub store32 : List ℕ → ℕ → ℕ → Outcome (List ℕ)
store32 mem p v = do mem' ← store16 mem p v; store16 mem' (p + 2) (v / 65536)

-- `(x & mask) != 0`
abbrev pub flag : ℕ → ℕ → Bool
flag x mask = not (bit_and x mask == 0)

-- A word and a doubleword, lowest byte first.
abbrev pub le16 : ℕ → List ℕ
le16 v = (v % 256) ∷ (v / 256) ∷ []

abbrev pub le32 : ℕ → List ℕ
le32 v = (v % 256) ∷ (v / 256 % 256) ∷ (v / 65536 % 256) ∷ (v / 16777216) ∷ []
