-- ===== src/Doscalls/Environ/Runs.antt =====
-- native/doscalls.c: environments and command lines on concrete bytes.
use ine_debugger.Prelude.{
  ℕ, ◌+◌, ◌<◌, ◌≤◌, ◌≡◌, refl, arith, ◌⊎◌, true, some, List, [], ◌∷◌, ◌++◌, length,
}
use ine_debugger.Prelude.Memory.{ok}
use ine_debugger.Doscalls.Environ.{dos_scan_env, calc_envp, calc_argv, Vector}
use ine_debugger.Doscalls.Environ.Blocks.{Storable, block_bytes, entries, dos_scan_env-lookup}
use ine_debugger.Doscalls.Environ.Vectors.{Encloses, calc_envp-block_bytes}
use ine_debugger.Doscalls.Environ.Arguments.{
  Argument, plain, between, typed, HasVector, calc_argv-typed, calc_argv_within,
}

-- A=1 and AB=2
abbrev two_pairs : List (List ℕ × List ℕ)
two_pairs = (65 ∷ [], 49 ∷ []) ∷ (65 ∷ 66 ∷ [], 50 ∷ []) ∷ []

first_pair-Storable : Storable (65 ∷ 61 ∷ 49 ∷ [])
first_pair-Storable = record {
  not_empty = omega arith;
  no_zero = (omega arith, (omega arith, (omega arith, tt)));
}

second_pair-Storable : Storable (65 ∷ 66 ∷ 61 ∷ 50 ∷ [])
second_pair-Storable = record {
  not_empty = omega arith;
  no_zero = (omega arith, (omega arith, (omega arith, (omega arith, tt))));
}

dos_scan_env-lookup_example :
    dos_scan_env 3 (block_bytes (entries two_pairs) ++ (7 ∷ [])) (65 ∷ 66 ∷ [])
    ≡ ok (some (50 ∷ []))
dos_scan_env-lookup_example =
    dos_scan_env-lookup two_pairs (65 ∷ 66 ∷ []) (7 ∷ [])
      (λ e. absurd (omega (arith, e)), (λ e. absurd (omega (arith, e)), tt))
      (
        (λ e. absurd (omega (arith, e)), tt),
        ((λ e. absurd (omega (arith, e)), (λ e. absurd (omega (arith, e)), tt)), tt),
      )
      (first_pair-Storable, (second_pair-Storable, tt))

calc_envp-block_bytes_example :
    (r : ℕ ⊎ Vector) × (calc_envp (block_bytes (entries two_pairs) ++ []) (120 ∷ []) true ≡ ok r)
    × Encloses (entries two_pairs) (120 ∷ []) r
calc_envp-block_bytes_example =
    calc_envp-block_bytes (65 ∷ 61 ∷ 49 ∷ []) ((65 ∷ 66 ∷ 61 ∷ 50 ∷ []) ∷ []) [] (120 ∷ [])
      (first_pair-Storable, (second_pair-Storable, tt))

-- "a b" x
abbrev two_arguments : List Argument
two_arguments = between (97 ∷ 32 ∷ 98 ∷ []) ∷ plain (120 ∷ []) ∷ []

calc_argv-typed_example :
    HasVector
      (λ v. v.strings ≡ (112 ∷ []) ∷ (97 ∷ 32 ∷ 98 ∷ []) ∷ (120 ∷ []) ∷ [])
      (calc_argv (112 ∷ []) (typed two_arguments []) true)
calc_argv-typed_example =
    calc_argv-typed (112 ∷ []) two_arguments [] (omega arith)
      ((refl, (refl, (refl, tt))), ((omega arith, ((refl, refl), tt)), tt)) tt

calc_argv_within_run :
    HasVector
      (λ v. (length v.strings + 1 ≤ v.slots) × (v.used ≤ v.size))
      (calc_argv (112 ∷ []) (120 ∷ 32 ∷ 121 ∷ []) true)
calc_argv_within_run =
    calc_argv_within (112 ∷ []) (120 ∷ 32 ∷ 121 ∷ []) (omega arith) (refl, (refl, (refl, tt)))

-- Three arguments in quotes without a blank between them take one slot more than there is.
tight_quotes_run :
    HasVector
      (λ v. v.slots < length v.strings + 1)
      (calc_argv (112 ∷ []) (34 ∷ 97 ∷ 34 ∷ 34 ∷ 98 ∷ 34 ∷ 34 ∷ 99 ∷ 34 ∷ []) true)
unfolding calc_argv
tight_quotes_run = omega arith

-- A quote within a word takes away the first byte of the word.
inner_quote_run :
    HasVector
      (λ v. v.strings ≡ (112 ∷ []) ∷ (98 ∷ 34 ∷ 99 ∷ []) ∷ [])
      (calc_argv (112 ∷ []) (97 ∷ 98 ∷ 34 ∷ 99 ∷ 34 ∷ []) true)
unfolding calc_argv
inner_quote_run = refl
