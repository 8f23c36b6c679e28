-- ===== src/Doscalls/Environ/Blocks.antt =====
-- native/doscalls.c: an environment block as a list of strings: DosScanEnv and calcEnvp on it.
use mathlib.Core.List.{append_assoc}
use ine_debugger.Prelude.{ℕ, suc, ◌<◌, ◌≡◌, ◌≢◌, refl, ap, ◌∙◌, arith, inl, inr}
use ine_debugger.Prelude.{Bool, true, false, Option, none, some, List, [], ◌∷◌, ◌++◌, All, length}
use ine_debugger.Prelude.{◌==◌, if◌then◌else◌, Bool-cases}
use ine_debugger.Prelude.Memory.{Outcome, ok}
use ine_debugger.Doscalls.Environ.{next_string, value_in, or_else, dos_scan_env}

-- A string of a block is not empty and has no 0.
pub record Storable (s : List ℕ) : Type 0 where
  pub not_empty : 0 < length s
  pub no_zero : All (λ b. 0 < b) s

abbrev pub block_bytes : List (List ℕ) → List ℕ
block_bytes [] = 0 ∷ []
block_bytes (s ∷ ss) = s ++ (0 ∷ block_bytes ss)

next_string_at :
    (s rest : List ℕ) → All (λ b. 0 < b) s → next_string (s ++ (0 ∷ rest)) ≡ ok (s, rest)
unfolding next_string
next_string_at [] rest h = refl
next_string_at (b ∷ s) rest (h, hs) =
    let further = next_string_at s rest hs in
    let there : (b == 0) ≡ false = ground (arith, h) in rw (there, further) refl

-- The first string that gives the name a value.
abbrev pub first_value : List ℕ → List (List ℕ) → Option (List ℕ)
first_value name [] = none
first_value name (s ∷ ss) = elim (value_in name s) [
  | none ↦ first_value name ss
  | some value ↦ some value
]

scan_entry :
    (found : Option (List ℕ)) (further : Outcome (Option (List ℕ))) (rest : Option (List ℕ))
    → further ≡ ok rest
    → or_else found further ≡ ok (elim found [ none ↦ rest | some value ↦ some value ])
scan_entry none further rest e = e
scan_entry (some value) further rest e = refl

dos_scan_env_step :
    (fuel : ℕ) (s rest name : List ℕ)
    → Storable s
    → dos_scan_env (suc fuel) (s ++ (0 ∷ rest)) name
      ≡ or_else (value_in name s) (dos_scan_env fuel rest name)
unfolding dos_scan_env
dos_scan_env_step fuel [] rest name h = let k = h.not_empty in absurd (omega (arith, k))
dos_scan_env_step fuel (b ∷ s) rest name h =
    let (first, others) = h.no_zero in
    let there : (b == 0) ≡ false = ground (arith, first) in
    rw (dos_scan_env, there, next_string_at s rest others) refl

-- On a block of strings, with one round for each, the loop ends and answers the value of the first
-- string that begins with the name and `=`.
pub dos_scan_env-block_bytes :
    (ss : List (List ℕ)) (name rest : List ℕ)
    → All Storable ss
    → dos_scan_env (suc (length ss)) (block_bytes ss ++ rest) name ≡ ok (first_value name ss)
unfolding dos_scan_env
dos_scan_env-block_bytes [] name rest h = refl
dos_scan_env-block_bytes (s ∷ ss) name rest (h, hs) =
    rw (append_assoc s (0 ∷ block_bytes ss) rest) (
      dos_scan_env_step (suc (length ss)) s (block_bytes ss ++ rest) name h
      ∙ scan_entry (value_in name s) _ _ (dos_scan_env-block_bytes ss name rest hs))

-- A variable and its value, as the block has it.
abbrev pub entry : List ℕ × List ℕ → List ℕ
entry (key, value) = key ++ (61 ∷ value)

abbrev pub entries : List (List ℕ × List ℕ) → List (List ℕ)
entries [] = []
entries (kv ∷ kvs) = entry kv ∷ entries kvs

-- The first value that goes with a key, by comparing keys.
abbrev pub same_bytes : List ℕ → List ℕ → Bool
same_bytes [] [] = true
same_bytes [] (c ∷ cs) = false
same_bytes (b ∷ bs) [] = false
same_bytes (b ∷ bs) (c ∷ cs) = if b == c then same_bytes bs cs else false

abbrev pub lookup : List ℕ → List (List ℕ × List ℕ) → Option (List ℕ)
lookup name [] = none
lookup name ((key, value) ∷ kvs) = if same_bytes name key then some value else lookup name kvs

-- A key has no `=`.
abbrev pub Key : List ℕ → Type 0
Key key = All (λ b. b ≢ 61) key

value_in_entry :
    (name key value : List ℕ)
    → Key name
    → Key key
    → value_in name (key ++ (61 ∷ value)) ≡ (if same_bytes name key then some value else none)
unfolding value_in
value_in_entry [] [] value hn hk = refl
value_in_entry [] (c ∷ cs) value hn (h, hk) =
    let no : (c == 61) ≡ false = ground (arith, h) in rw no refl
value_in_entry (n ∷ ns) [] value (h, hn) hk =
    let no : (n == 61) ≡ false = ground (arith, h) in rw no refl
value_in_entry (n ∷ ns) (c ∷ cs) value (h, hn) (k, hk) =
    let ih = value_in_entry ns cs value hn hk in
    elim (Bool-cases (n == c)) [ inl same ↦ rw (same, ih) refl | inr differs ↦ rw differs refl ]

first_value_entries :
    (name : List ℕ) (kvs : List (List ℕ × List ℕ))
    → Key name
    → All (λ kv. Key kv.0) kvs
    → first_value name (entries kvs) ≡ lookup name kvs
first_value_entries name [] hn h = refl
first_value_entries name ((key, value) ∷ kvs) hn (h, hs) =
    let ih = first_value_entries name kvs hn hs in
    let here = value_in_entry name key value hn h in
    elim (Bool-cases (same_bytes name key)) [
      | inl same ↦ rw same (ground (arith, here, same))
      | inr differs ↦ rw differs (ground (arith, here, differs, ih))
    ]

-- DosScanEnv on the block of an environment is the lookup of a key among pairs.
pub dos_scan_env-lookup :
    (kvs : List (List ℕ × List ℕ)) (name rest : List ℕ)
    → Key name
    → All (λ kv. Key kv.0) kvs
    → All Storable (entries kvs)
    → dos_scan_env (suc (length (entries kvs))) (block_bytes (entries kvs) ++ rest) name
      ≡ ok (lookup name kvs)
dos_scan_env-lookup kvs name rest hn hk h =
    dos_scan_env-block_bytes (entries kvs) name rest h ∙ ap ok (first_value_entries name kvs hn hk)
