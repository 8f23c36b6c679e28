-- ===== src/Doscalls/Environ.antt =====
-- native/doscalls.c: the environment and the arguments of a process (DosScanEnv, calcEnvp,
-- calcArgv). A string is the list of its bytes without the final 0; a block of strings keeps its
-- zeros. A pointer has 4 bytes.
pub mod Blocks
pub mod Vectors
pub mod Arguments
mod Runs
use ine_debugger.Doscalls.Errors.{error_not_enough_memory, error_bad_environment}
use ine_debugger.Prelude.{
  ℕ, zero, suc, ◌+◌, ◌*◌, Bool, true, false, ◌||◌, Option, none, some, List, [], ◌∷◌, ◌++◌,
}
use ine_debugger.Prelude.{◌==◌, if◌then◌else◌, length, drop, ◌⊎◌, inl, inr}
use ine_debugger.Prelude.Memory.{Outcome, ok, crash, halt, stuck, ◌>>=◌}

-- A string of a block, and what stands behind its 0.
unfoldable pub next_string : List ℕ → Outcome (List ℕ × List ℕ)
next_string [] = crash
next_string (b ∷ bs) =
    let further = next_string bs in
    if b == 0 then ok ([], bs) else (further >>= λ (s, rest). ok (b ∷ s, rest))

-- `strncmp(env, name, len) == 0 && env[len] == '='`, with what stands behind it.
unfoldable pub value_in : List ℕ → List ℕ → Option (List ℕ)
value_in [] [] = none
value_in [] (c ∷ cs) = if c == 61 then some cs else none
value_in (n ∷ ns) [] = none
value_in (n ∷ ns) (c ∷ cs) = let further = value_in ns cs in if n == c then further else none

abbrev pub or_else : Option (List ℕ) → Outcome (Option (List ℕ)) → Outcome (Option (List ℕ))
or_else none further = further
or_else (some value) further = ok (some value)

-- The loop over the block, on fuel; `none` is ERROR_ENVVAR_NOT_FOUND.
unfoldable pub dos_scan_env : ℕ → List ℕ → List ℕ → Outcome (Option (List ℕ))
unfolding next_string value_in
dos_scan_env fuel [] name = crash
dos_scan_env zero (b ∷ bs) name = stuck
dos_scan_env (suc fuel) (b ∷ bs) name =
    if b == 0
    then ok none
    else (next_string (b ∷ bs) >>= λ (s, rest).
        or_else (value_in name s) (dos_scan_env fuel rest name))

-- The first loop of calcEnvp: the bytes and the strings that it counts.
unfoldable pub envp_length : List ℕ → ℕ → ℕ → Outcome (ℕ × ℕ)
envp_length [] len idx = crash
envp_length (b ∷ []) len idx = crash
envp_length (b ∷ c ∷ cs) len idx =
    let longer = envp_length (c ∷ cs) (len + 1) idx in
    let further = envp_length (c ∷ cs) (len + 5) (idx + 1) in
    if b == 0 then (if c == 0 then ok (len + 5, idx + 1) else further) else longer

abbrev pub is_2ine : List ℕ
is_2ine = 73 ∷ 83 ∷ 95 ∷ 50 ∷ 73 ∷ 78 ∷ 69 ∷ 61 ∷ []

-- The second loop: the strings, with what is read of the one that has begun.
unfoldable pub envp_copy : List ℕ → List ℕ → Outcome (List (List ℕ))
envp_copy [] start = crash
envp_copy (b ∷ []) start = crash
envp_copy (b ∷ c ∷ cs) start =
    let longer = envp_copy (c ∷ cs) (start ++ (b ∷ [])) in
    let further = envp_copy (c ∷ cs) [] in
    if b == 0
    then (if c == 0 then ok (start ∷ []) else (further >>= λ strings. ok (start ∷ strings)))
    else longer

-- The strings, and where the bytes end that the vector and its strings take up.
abbrev pub bytes_of : List (List ℕ) → ℕ
bytes_of [] = 0
bytes_of (s ∷ ss) = length s + 1 + bytes_of ss

-- A vector of strings: its strings, the bytes that were asked of malloc, the pointers between its
-- start and the bytes of the strings, and where these end.
pub record Vector : Type 0 where
  pub strings : List (List ℕ)
  pub size : ℕ
  pub slots : ℕ
  pub used : ℕ

-- What both loops make, with the string that names the program.
abbrev pub envp_vector : List (List ℕ) → ℕ → ℕ → List ℕ → Vector
envp_vector strings len idx exe = record {
  strings = strings ++ ((is_2ine ++ exe) ∷ []);
  size = len + 4 + (length exe + 16 + 4);
  slots = idx + 1 + 1;
  used = 4 * (idx + 1 + 1) + bytes_of strings + 8 + (length exe + 1) + 1;
}

-- calcEnvp. Without any string, a failure leaves the caller's error as it is, at 0. `granted`: whether malloc finds the memory.
unfoldable pub calc_envp : List ℕ → List ℕ → Bool → Outcome (ℕ ⊎ Vector)
unfolding envp_length envp_copy
calc_envp [] exe granted = crash
calc_envp (b ∷ bs) exe granted =
    if b == 0
    then ok
        (if granted then inr (record { strings = []; size = 4; slots = 1; used = 4 }) else inl 0)
    else (envp_length (b ∷ bs) 0 0 >>= λ (len, idx).
        if granted
        then (envp_copy (b ∷ bs) [] >>= λ strings. ok (inr (envp_vector strings len idx exe)))
        else ok (inl error_not_enough_memory))

-- Where the loop of calcArgv stands: in blanks, in a word or in quotes, with the bytes since
-- `srcstart`.
pub data Mode : Type 0 where
  blanks : Mode
  word : List ℕ → Mode
  quoted : List ℕ → Mode

abbrev pub is_blank : ℕ → Bool
is_blank c = c == 32 || c == 9

-- A quote moves `srcstart` on by one, wherever it stands.
unfoldable pub argv_copy : Mode → List ℕ → List (List ℕ)
argv_copy blanks [] = []
argv_copy (word start) [] = if length start == 0 then [] else start ∷ []
argv_copy (quoted start) [] = start ∷ []
argv_copy blanks (c ∷ cs) =
    let skip = argv_copy blanks cs in
    let quote = argv_copy (quoted []) cs in
    let begin = argv_copy (word (c ∷ [])) cs in
    if is_blank c then skip else (if c == 34 then quote else begin)
argv_copy (word start) (c ∷ cs) =
    let skip = argv_copy blanks cs in
    let quote = argv_copy (quoted (drop 1 (start ++ (c ∷ [])))) cs in
    let longer = argv_copy (word (start ++ (c ∷ []))) cs in
    if is_blank c then start ∷ skip else (if c == 34 then quote else longer)
argv_copy (quoted start) (c ∷ cs) =
    let skip = argv_copy blanks cs in
    let longer = argv_copy (quoted (start ++ (c ∷ []))) cs in
    if c == 34 then start ∷ skip else longer

-- The first loop of calcArgv counts the blanks.
unfoldable pub argv_blanks : List ℕ → ℕ
argv_blanks [] = 0
argv_blanks (c ∷ cs) = let further = argv_blanks cs in if is_blank c then further + 1 else further

-- calcArgv, of the program's name and the string behind it.
unfoldable pub calc_argv : List ℕ → List ℕ → Bool → ℕ ⊎ Vector
unfolding argv_copy argv_blanks
calc_argv argv0 args granted =
    let idx = argv_blanks args + 1 + 1 in
    let strings = argv0 ∷ argv_copy blanks args in
    if length argv0 == 0
    then inl error_bad_environment
    else (if granted
        then inr (record {
          strings = strings;
          size = length args + (length argv0 + 1 + 4) + idx * 5;
          slots = idx + 1;
          used = 4 * (idx + 1) + bytes_of strings;
        })
        else inl error_not_enough_memory)
