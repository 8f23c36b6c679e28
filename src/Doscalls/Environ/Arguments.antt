-- ===== src/Doscalls/Environ/Arguments.antt =====
-- native/doscalls.c, calcArgv: the words of a command line, and the memory they take up.
use mathlib.Core.List.{append_assoc, append-nil}
use ine_debugger.Prelude.{ℕ, ◌+◌, ◌<◌, ◌≤◌, ◌≡◌, refl, sym, ap, ◌∙◌, arith, inl, inr, ◌⊎◌}
use ine_debugger.Prelude.{true, false, List, [], ◌∷◌, ◌++◌, All, length, length-append}
use ine_debugger.Prelude.{◌==◌}
use ine_debugger.Doscalls.Environ.{
  argv_copy, argv_blanks, calc_argv, is_blank, bytes_of, Vector, Mode, blanks, word, quoted,
}

-- An argument as it is typed: plain, without blanks and quotes, or between quotes.
pub data Argument : Type 0 where
  plain : List ℕ → Argument
  between : List ℕ → Argument

abbrev pub typed_one : Argument → List ℕ
typed_one (plain s) = s
typed_one (between s) = 34 ∷ (s ++ (34 ∷ []))

-- Behind an argument: the others, with a blank in front of each, and then what ends the line.
abbrev pub typed_behind : List Argument → List ℕ → List ℕ
typed_behind [] ending = ending
typed_behind (a ∷ rest) ending = 32 ∷ (typed_one a ++ typed_behind rest ending)

-- A line of arguments with a blank between each two.
abbrev pub typed : List Argument → List ℕ → List ℕ
typed [] ending = ending
typed (a ∷ rest) ending = typed_one a ++ typed_behind rest ending

abbrev pub meant_one : Argument → List ℕ
meant_one (plain s) = s
meant_one (between s) = s

abbrev pub meant : List Argument → List (List ℕ)
meant [] = []
meant (a ∷ rest) = meant_one a ∷ meant rest

abbrev pub Bare : ℕ → Type 0
Bare c = (is_blank c ≡ false) × ((c == 34) ≡ false)

abbrev pub Typable : Argument → Type 0
Typable (plain s) = (0 < length s) × All Bare s
Typable (between s) = All (λ c. (c == 34) ≡ false) s

-- Blanks, or nothing.
abbrev pub Blank : List ℕ → Type 0
Blank cs = All (λ c. is_blank c ≡ true) cs

copy-Blank : (ending : List ℕ) → Blank ending → argv_copy blanks ending ≡ []
unfolding argv_copy
copy-Blank [] h = refl
copy-Blank (c ∷ cs) (blank, h) = rw blank (copy-Blank cs h)

-- A word ends at a blank or at the end of the line.
word_ends :
    (whole : List ℕ) (rest : List Argument) (ending : List ℕ)
    → 0 < length whole
    → Blank ending
    → argv_copy (word whole) (typed_behind rest ending)
      ≡ whole ∷ argv_copy blanks (typed_behind rest ending)
unfolding argv_copy
word_ends whole [] [] some_bytes h =
    let full : (length whole == 0) ≡ false = ground (arith, some_bytes) in rw full refl
word_ends whole [] (c ∷ cs) some_bytes (blank, h) = rw blank refl
word_ends whole (a ∷ rest) ending some_bytes h = refl

copy_word :
    (s start whole tail : List ℕ)
    → All Bare s
    → start ++ s ≡ whole
    → argv_copy (word start) (s ++ tail) ≡ argv_copy (word whole) tail
unfolding argv_copy
copy_word [] start whole tail h e =
    ap (λ (w : List ℕ). argv_copy (word w) tail) (sym (append-nil start) ∙ e)
copy_word (c ∷ s) start whole tail ((no_blank, no_quote), hs) e =
    rw (no_blank, no_quote)
      (copy_word s (start ++ (c ∷ [])) whole tail hs (append_assoc start (c ∷ []) s ∙ e))

copy_quoted :
    (s start whole tail : List ℕ)
    → All (λ c. (c == 34) ≡ false) s
    → start ++ s ≡ whole
    → argv_copy (quoted start) (s ++ (34 ∷ tail)) ≡ whole ∷ argv_copy blanks tail
unfolding argv_copy
copy_quoted [] start whole tail h e =
    ap (λ (w : List ℕ). w ∷ argv_copy blanks tail) (sym (append-nil start) ∙ e)
copy_quoted (c ∷ s) start whole tail (no_quote, hs) e =
    rw no_quote
      (copy_quoted s (start ++ (c ∷ [])) whole tail hs (append_assoc start (c ∷ []) s ∙ e))

copy_one :
    (a : Argument) (rest : List Argument) (ending : List ℕ)
    → Typable a
    → Blank ending
    → argv_copy blanks (typed_one a ++ typed_behind rest ending)
      ≡ meant_one a ∷ argv_copy blanks (typed_behind rest ending)
unfolding argv_copy
copy_one (plain []) rest ending (some_bytes, bare) h = absurd (omega (arith, some_bytes))
copy_one (plain (c ∷ s)) rest ending (some_bytes, ((no_blank, no_quote), bare)) h =
    rw (no_blank, no_quote)
      (copy_word s (c ∷ []) (c ∷ s) (typed_behind rest ending) bare refl
        ∙ word_ends (c ∷ s) rest ending some_bytes h)
copy_one (between s) rest ending h h' =
    rw (append_assoc s (34 ∷ []) (typed_behind rest ending))
      (copy_quoted s [] s (typed_behind rest ending) h refl)

copy_behind :
    (as' : List Argument) (ending : List ℕ)
    → All Typable as'
    → Blank ending
    → argv_copy blanks (typed_behind as' ending) ≡ meant as'
unfolding argv_copy
copy_behind [] ending h blank = copy-Blank ending blank
copy_behind (a ∷ rest) ending (h, hs) blank =
    copy_one a rest ending h blank
    ∙ ap (λ (t : List (List ℕ)). meant_one a ∷ t) (copy_behind rest ending hs blank)

-- The loop reads arguments back as they were typed.
argv_copy-typed :
    (as' : List Argument) (ending : List ℕ)
    → All Typable as'
    → Blank ending
    → argv_copy blanks (typed as' ending) ≡ meant as'
argv_copy-typed [] ending h blank = copy-Blank ending blank
argv_copy-typed (a ∷ rest) ending (h, hs) blank =
    copy_one a rest ending h blank
    ∙ ap (λ (t : List (List ℕ)). meant_one a ∷ t) (copy_behind rest ending hs blank)

abbrev pub HasVector : (Vector → Type 0) → ℕ ⊎ Vector → Type 0
HasVector P (inl error) = ⊥
HasVector P (inr v) = P v

-- Arguments that are typed behind a program's name, with a blank between each two and nothing or
-- blanks behind the last, come out of calcArgv one by one, behind the name. An argument is bytes
-- without blanks and quotes, at least one, or any bytes but quotes between two quotes.
pub calc_argv-typed :
    (argv0 : List ℕ) (as' : List Argument) (ending : List ℕ)
    → 0 < length argv0
    → All Typable as'
    → Blank ending
    → HasVector (λ v. v.strings ≡ argv0 ∷ meant as') (calc_argv argv0 (typed as' ending) true)
unfolding calc_argv
calc_argv-typed argv0 as' ending h hs blank =
    let named : (length argv0 == 0) ≡ false = ground (arith, h) in
    rw (calc_argv, named)
      (ap (λ (t : List (List ℕ)). argv0 ∷ t) (argv_copy-typed as' ending hs blank))

abbrev pub started : Mode → ℕ
started blanks = 0
started (word start) = length start
started (quoted start) = length start

abbrev pub Unquoted : Mode → Type 0
Unquoted blanks = Unit
Unquoted (word start) = Unit
Unquoted (quoted start) = ⊥

-- Without quotes there is at most one argument more than there are blanks.
argv_copy_count :
    (mode : Mode) (cs : List ℕ)
    → Unquoted mode
    → All (λ c. (c == 34) ≡ false) cs
    → length (argv_copy mode cs) ≤ 1 + argv_blanks cs
unfolding argv_copy argv_blanks
argv_copy_count blanks [] u h = omega arith
argv_copy_count (word start) [] u h = ground arith
argv_copy_count (quoted start) cs u h = absurd u
argv_copy_count blanks (c ∷ cs) u (no_quote, h) =
    let skip = argv_copy_count blanks cs tt h in
    let begin = argv_copy_count (word (c ∷ [])) cs tt h in ground (arith, no_quote, skip, begin)
argv_copy_count (word start) (c ∷ cs) u (no_quote, h) =
    let skip = argv_copy_count blanks cs tt h in
    let longer = argv_copy_count (word (start ++ (c ∷ []))) cs tt h in
    ground (arith, no_quote, skip, longer)

-- And the bytes copied are those read, with one 0 for each argument.
argv_copy_bytes :
    (mode : Mode) (cs : List ℕ)
    → Unquoted mode
    → All (λ c. (c == 34) ≡ false) cs
    → bytes_of (argv_copy mode cs) ≤ started mode + length cs + argv_blanks cs + 1
unfolding argv_copy argv_blanks
argv_copy_bytes blanks [] u h = omega arith
argv_copy_bytes (word start) [] u h = ground arith
argv_copy_bytes (quoted start) cs u h = absurd u
argv_copy_bytes blanks (c ∷ cs) u (no_quote, h) =
    let skip = argv_copy_bytes blanks cs tt h in
    let begin = argv_copy_bytes (word (c ∷ [])) cs tt h in ground (arith, no_quote, skip, begin)
argv_copy_bytes (word start) (c ∷ cs) u (no_quote, h) =
    let skip = argv_copy_bytes blanks cs tt h in
    let longer = argv_copy_bytes (word (start ++ (c ∷ []))) cs tt h in
    let size = length-append start (c ∷ []) in ground (arith, no_quote, skip, longer, size)

-- Without quotes the vector has a slot for each argument and for the NULL, and all that is written
-- lies within the memory that was asked for.
pub calc_argv_within :
    (argv0 args : List ℕ)
    → 0 < length argv0
    → All (λ c. (c == 34) ≡ false) args
    → HasVector
        (λ v. (length v.strings + 1 ≤ v.slots) × (v.used ≤ v.size))
        (calc_argv argv0 args true)
unfolding calc_argv
calc_argv_within argv0 args h hs =
    let named : (length argv0 == 0) ≡ false = ground (arith, h) in
    let count = argv_copy_count blanks args tt hs in
    let size = argv_copy_bytes blanks args tt hs in
    rw (calc_argv, named) (omega (arith, count), omega (arith, size))
