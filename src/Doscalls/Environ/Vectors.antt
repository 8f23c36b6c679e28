-- ===== src/Doscalls/Environ/Vectors.antt =====
-- native/doscalls.c, calcEnvp: the vector made of a block of strings, and the memory it takes up.
use mathlib.Core.List.{append_assoc, append-nil}
use ine_debugger.Prelude.{ℕ, ◌+◌, ◌*◌, ◌<◌, ◌≤◌, ◌≡◌, refl, sym, ◌∙◌, arith, inl, inr, ◌⊎◌}
use ine_debugger.Prelude.{true, false, List, [], ◌∷◌, ◌++◌, All, length, length-append}
use ine_debugger.Prelude.{◌==◌, if◌then◌else◌}
use ine_debugger.Prelude.Memory.{Outcome, ok, ◌>>=◌}
use ine_debugger.Doscalls.Environ.{
  envp_length, envp_copy, calc_envp, is_2ine, bytes_of, Vector, envp_vector,
}
use ine_debugger.Doscalls.Environ.Blocks.{Storable, block_bytes}

same_counts : (a b c d : ℕ) → a ≡ b → c ≡ d → ◌≡◌ {A = Outcome (ℕ × ℕ)} (ok (a, c)) (ok (b, d))
same_counts a b c d e e' = rw (e, e') refl

-- Reading on to the end of a string that has begun.
copy_string :
    (s start whole : List ℕ) (c : ℕ) (cs : List ℕ)
    → All (λ b. 0 < b) s
    → start ++ s ≡ whole
    → envp_copy (s ++ (0 ∷ c ∷ cs)) start ≡ (
        if c == 0
        then ok (whole ∷ [])
        else (envp_copy (c ∷ cs) [] >>= λ strings. ok (whole ∷ strings)))
unfolding envp_copy
copy_string [] start whole c cs h e = let same = sym (append-nil start) ∙ e in rw same refl
copy_string (b ∷ []) start whole c cs (h, hs) e =
    let there : (b == 0) ≡ false = ground (arith, h) in
    rw there (copy_string [] (start ++ (b ∷ [])) whole c cs tt (append_assoc start (b ∷ []) [] ∙ e))
copy_string (b ∷ x ∷ s) start whole c cs (h, hs) e =
    let there : (b == 0) ≡ false = ground (arith, h) in
    rw there (
      copy_string (x ∷ s) (start ++ (b ∷ [])) whole c cs hs
        (append_assoc start (b ∷ []) (x ∷ s) ∙ e))

-- Counting to the end of a string.
count_string :
    (s : List ℕ) (len idx total c : ℕ) (cs : List ℕ)
    → All (λ b. 0 < b) s
    → len + length s ≡ total
    → envp_length (s ++ (0 ∷ c ∷ cs)) len idx
      ≡ (if c == 0 then ok (total + 5, idx + 1) else envp_length (c ∷ cs) (total + 5) (idx + 1))
unfolding envp_length
count_string [] len idx total c cs h e = let same : len ≡ total = omega (arith, e) in rw same refl
count_string (b ∷ []) len idx total c cs (h, hs) e =
    let there : (b == 0) ≡ false = ground (arith, h) in
    rw there (count_string [] (len + 1) idx total c cs tt (omega (arith, e)))
count_string (b ∷ x ∷ s) len idx total c cs (h, hs) e =
    let there : (b == 0) ≡ false = ground (arith, h) in
    rw there (count_string (x ∷ s) (len + 1) idx total c cs hs (omega (arith, e)))

envp_copy-block_bytes :
    (s : List ℕ) (ss : List (List ℕ)) (rest : List ℕ)
    → All Storable (s ∷ ss)
    → envp_copy (s ++ (0 ∷ (block_bytes ss ++ rest))) [] ≡ ok (s ∷ ss)
envp_copy-block_bytes s [] rest (h, hs) = copy_string s [] s 0 rest h.no_zero refl
envp_copy-block_bytes s ([] ∷ ss) rest (h, (h', hs)) =
    let k = h'.not_empty in absurd (omega (arith, k))
envp_copy-block_bytes s ((c ∷ t) ∷ ss) rest (h, (h', hs)) =
    let (first, others) = h'.no_zero in
    let there : (c == 0) ≡ false = ground (arith, first) in
    let further : envp_copy (c ∷ ((t ++ (0 ∷ block_bytes ss)) ++ rest)) [] ≡ ok ((c ∷ t) ∷ ss) =
      rw (append_assoc t (0 ∷ block_bytes ss) rest)
        (envp_copy-block_bytes (c ∷ t) ss rest (h', hs)) in
    copy_string s [] s c ((t ++ (0 ∷ block_bytes ss)) ++ rest) h.no_zero refl
    ∙ rw (there, further) refl

envp_length-block_bytes :
    (s : List ℕ) (ss : List (List ℕ)) (rest : List ℕ) (len idx : ℕ)
    → All Storable (s ∷ ss)
    → envp_length (s ++ (0 ∷ (block_bytes ss ++ rest))) len idx
      ≡ ok (len + bytes_of (s ∷ ss) + 4 * length (s ∷ ss), idx + length (s ∷ ss))
envp_length-block_bytes s [] rest len idx (h, hs) =
    count_string s len idx (len + length s) 0 rest h.no_zero refl
    ∙ same_counts _ _ _ _ (omega arith) (omega arith)
envp_length-block_bytes s ([] ∷ ss) rest len idx (h, (h', hs)) =
    let k = h'.not_empty in absurd (omega (arith, k))
envp_length-block_bytes s ((c ∷ t) ∷ ss) rest len idx (h, (h', hs)) =
    let (first, others) = h'.no_zero in
    let there : (c == 0) ≡ false = ground (arith, first) in
    let further : envp_length (c ∷ ((t ++ (0 ∷ block_bytes ss)) ++ rest)) (len + length s + 5)
          (idx + 1)
        ≡ ok (
          len + length s + 5 + bytes_of ((c ∷ t) ∷ ss) + 4 * length ((c ∷ t) ∷ ss),
          idx + 1 + length ((c ∷ t) ∷ ss),
        ) =
      rw (append_assoc t (0 ∷ block_bytes ss) rest)
        (envp_length-block_bytes (c ∷ t) ss rest (len + length s + 5) (idx + 1) (h', hs)) in
    count_string s len idx (len + length s) c ((t ++ (0 ∷ block_bytes ss)) ++ rest) h.no_zero refl
    ∙ rw (there, further) (same_counts _ _ _ _ (omega arith) (omega arith))

-- What calcEnvp makes of a block.
abbrev pub Encloses : List (List ℕ) → List ℕ → ℕ ⊎ Vector → Type 0
Encloses ss exe (inl error) = ⊥
Encloses ss exe (inr v) =
    (v.strings ≡ ss ++ ((is_2ine ++ exe) ∷ []))
    × (v.slots ≡ length v.strings + 1)
    × (v.used ≤ v.size)

-- Of a block with at least one string, calcEnvp makes the vector of its strings and, last, the one
-- that names the program; it has a slot for each and for the NULL, and all that is written lies
-- within the memory that was asked for.
pub calc_envp-block_bytes :
    (s : List ℕ) (ss : List (List ℕ)) (rest exe : List ℕ)
    → All Storable (s ∷ ss)
    → (r : ℕ ⊎ Vector) × (calc_envp (block_bytes (s ∷ ss) ++ rest) exe true ≡ ok r)
      × Encloses (s ∷ ss) exe r
unfolding calc_envp
calc_envp-block_bytes [] ss rest exe (h, hs) = let k = h.not_empty in absurd (omega (arith, k))
calc_envp-block_bytes (b ∷ s) ss rest exe (h, hs) =
    let (first, others) = h.no_zero in
    let there : (b == 0) ≡ false = ground (arith, first) in
    let block : (s ++ (0 ∷ block_bytes ss)) ++ rest ≡ s ++ (0 ∷ (block_bytes ss ++ rest)) =
      append_assoc s (0 ∷ block_bytes ss) rest in
    let counted = envp_length-block_bytes (b ∷ s) ss rest 0 0 (h, hs) in
    let copied = envp_copy-block_bytes (b ∷ s) ss rest (h, hs) in
    let size = length-append ss ((is_2ine ++ exe) ∷ []) in
    let strings = (b ∷ s) ∷ ss in
    (
      inr (
          envp_vector strings (0 + bytes_of strings + 4 * length strings) (0 + length strings) exe),
      rw (calc_envp, there, block, counted, copied) refl,
      (refl, omega (arith, size), omega arith),
    )
