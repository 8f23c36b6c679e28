-- ===== src/Doscalls/Wildcard.antt =====
-- native/doscalls.c: wildcardMatch, the match of a file name with a pattern. Strings are their
-- bytes without the final 0.
use ine_debugger.Prelude.{ℕ, ◌+◌, ◌≢◌, ◌≡◌, refl, arith}
use ine_debugger.Prelude.{
  Bool, true, false, ◌&&◌, not, Option, none, some, List, [], ◌∷◌, ◌++◌, All,
}
use ine_debugger.Prelude.{leb, ◌==◌, if◌then◌else◌}

-- An ASCII letter in lower case.
abbrev pub lower : ℕ → ℕ
lower ch = if leb 65 ch && leb ch 90 then ch + 32 else ch

-- The first byte, which is 0 at the end.
abbrev pub first : List ℕ → ℕ
first [] = 0
first (c ∷ cs) = c

abbrev pub rest_of : List ℕ → List ℕ
rest_of [] = []
rest_of (c ∷ cs) = cs

-- `while (*str && (*str != next)) str++`
unfoldable pub skip_to : ℕ → List ℕ → List ℕ
skip_to next [] = []
skip_to next (c ∷ cs) = let further = skip_to next cs in if c == next then c ∷ cs else further

-- One round of the loop for the pattern's byte `pat`, where `next` is the byte behind it: `ext` and
-- `str` afterwards, or `none` where it returns 0.
unfoldable pub wildcard_step : Bool → List ℕ → ℕ → ℕ → Option (Bool × List ℕ)
unfolding skip_to
wildcard_step ext str pat next =
    if pat == 63
    then some (ext, rest_of str)
    else (if pat == 46 && not ext
        then (if first str == 46
            then some (true, rest_of str)
            else (if first str == 0 then some (true, str) else none))
        else (if pat == 42
            then some (ext, skip_to next str)
            else (if lower (first str) == lower pat then some (ext, rest_of str) else none)))

-- The loop, from a state `ext` on; wildcardMatch starts with 0.
unfoldable pub wildcard_match : Bool → List ℕ → List ℕ → Bool
unfolding wildcard_step
wildcard_match ext [] [] = true
wildcard_match ext (c ∷ cs) [] = false
wildcard_match ext str (pat ∷ pattern) = elim (wildcard_step ext str pat (first pattern)) [
  | none ↦ false
  | some (ext', str') ↦ wildcard_match ext' str' pattern
]

-- A byte that is neither the end of a string nor a wildcard.
abbrev pub IsLiteral : ℕ → Type 0
IsLiteral c = (c ≢ 0) × (c ≢ 63) × (c ≢ 42)

-- Every file name matches itself.
pub wildcard_match_self :
    (ext : Bool) (name : List ℕ) → All IsLiteral name → wildcard_match ext name name ≡ true
unfolding wildcard_match
wildcard_match_self ext [] ok = refl
wildcard_match_self ext (c ∷ cs) ((nz, nq, ns), ok) =
    ground (arith, wildcard_match_self true cs ok, wildcard_match_self ext cs ok)

-- Equal but for the case of ASCII letters.
abbrev pub same_letters : List ℕ → List ℕ → Bool
same_letters [] [] = true
same_letters [] (b ∷ bs) = false
same_letters (a ∷ as') [] = false
same_letters (a ∷ as') (b ∷ bs) = lower a == lower b && same_letters as' bs

-- A pattern of literals with no dot matches the names that are equal to it but for case, and no
-- others.
pub wildcard_match-literals :
    (ext : Bool) (str pattern : List ℕ)
    → All (λ c. IsLiteral c × (c ≢ 46)) pattern
    → wildcard_match ext str pattern ≡ same_letters str pattern
unfolding wildcard_match
wildcard_match-literals ext [] [] ok = refl
wildcard_match-literals ext (c ∷ cs) [] ok = refl
wildcard_match-literals ext [] (b ∷ bs) (((nz, nq, ns), nd), ok) = ground arith
wildcard_match-literals ext (c ∷ cs) (b ∷ bs) (((nz, nq, ns), nd), ok) =
    ground (arith, wildcard_match-literals ext cs bs ok)

skip_to-end : (str : List ℕ) → All (λ c. c ≢ 0) str → skip_to 0 str ≡ []
unfolding skip_to
skip_to-end [] ok = refl
skip_to-end (c ∷ cs) (nz, ok) = ground (arith, skip_to-end cs ok)

-- The start of a name is equal to a prefix but for case.
abbrev pub starts_with : List ℕ → List ℕ → Bool
starts_with str [] = true
starts_with [] (b ∷ bs) = false
starts_with (a ∷ as') (b ∷ bs) = lower a == lower b && starts_with as' bs

-- Literals with no dot and a `*` at the end match the names that start with them.
pub wildcard_match-prefix :
    (ext : Bool) (str prefix : List ℕ)
    → All (λ c. c ≢ 0) str
    → All (λ c. IsLiteral c × (c ≢ 46)) prefix
    → wildcard_match ext str (prefix ++ (42 ∷ [])) ≡ starts_with str prefix
unfolding wildcard_match
wildcard_match-prefix ext str [] good ok = ground (arith, skip_to-end str good)
wildcard_match-prefix ext [] (b ∷ bs) good (((nz, nq, ns), nd), ok) = ground arith
wildcard_match-prefix ext (c ∷ cs) (b ∷ bs) (gz, good) (((nz, nq, ns), nd), ok) =
    ground (arith, wildcard_match-prefix ext cs bs good ok)

skip_to-dot :
    (base rest : List ℕ) → All (λ c. c ≢ 46) base → skip_to 46 (base ++ (46 ∷ rest)) ≡ 46 ∷ rest
unfolding skip_to
skip_to-dot [] rest ok = refl
skip_to-dot (c ∷ cs) rest (nd, ok) = ground (arith, skip_to-dot cs rest ok)

-- The pattern `*.` with literals behind it matches a name whose part before the first dot is any,
-- where what stands behind that dot is equal to the literals but for case.
pub wildcard_match-extension :
    (base ext pattern : List ℕ)
    → All (λ c. c ≢ 46) base
    → All (λ c. IsLiteral c × (c ≢ 46)) pattern
    → wildcard_match false (base ++ (46 ∷ ext)) (42 ∷ 46 ∷ pattern) ≡ same_letters ext pattern
unfolding wildcard_match
wildcard_match-extension base ext pattern ok lit =
    ground (arith, skip_to-dot base ext ok, wildcard_match-literals true ext pattern lit)
