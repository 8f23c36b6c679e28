-- ===== src/Doscalls/Runs.antt =====
-- The theorems on the kernel interface at concrete values.
use ine_debugger.Doscalls.Errors.{no_error}
use ine_debugger.Prelude.{ℕ, ◌+◌, ◌*◌, ◌≢◌, ◌≡◌, refl, arith, false, none, some}
use ine_debugger.Prelude.{List, [], ◌∷◌, All}
use ine_debugger.Doscalls.Wildcard.{wildcard_match, IsLiteral, same_letters}
use ine_debugger.Doscalls.Wildcard.{wildcard_match-extension}
use ine_debugger.Doscalls.ExitList.{ExitListItem, dos_exit_list, dos_exit_list_undo}

abbrev name : List ℕ
name = 65 ∷ 46 ∷ 98 ∷ []

abbrev letters : List ℕ
letters = 97 ∷ 98 ∷ []

name_literals : All IsLiteral name
name_literals = (
  (λ e. absurd (omega (arith, e)), λ e. absurd (omega (arith, e)), λ e. absurd (omega (arith, e))),
  (
    (
      λ e. absurd (omega (arith, e)),
      λ e. absurd (omega (arith, e)),
      λ e. absurd (omega (arith, e)),
    ),
    (
      (
        λ e. absurd (omega (arith, e)),
        λ e. absurd (omega (arith, e)),
        λ e. absurd (omega (arith, e)),
      ),
      tt,
    ),
  ),
)

letters_literals : All (λ c. IsLiteral c × (c ≢ 46)) letters
letters_literals = (
  (
    (
      λ e. absurd (omega (arith, e)),
      λ e. absurd (omega (arith, e)),
      λ e. absurd (omega (arith, e)),
    ),
    λ e. absurd (omega (arith, e)),
  ),
  (
    (
      (
        λ e. absurd (omega (arith, e)),
        λ e. absurd (omega (arith, e)),
        λ e. absurd (omega (arith, e)),
      ),
      λ e. absurd (omega (arith, e)),
    ),
    tt,
  ),
)

wildcard_match-extension_example :
    wildcard_match false (65 ∷ 46 ∷ 65 ∷ 66 ∷ []) (42 ∷ 46 ∷ letters)
    ≡ same_letters (65 ∷ 66 ∷ []) letters
wildcard_match-extension_example =
    wildcard_match-extension (65 ∷ []) (65 ∷ 66 ∷ []) letters (λ e. absurd (omega (arith, e)), tt)
      letters_literals

abbrev items : List ExitListItem
items = record { fn = 7; priority = 3 } ∷ []

dos_exit_list_undo_example :
    dos_exit_list none 2 9 (dos_exit_list (some 3) (2 * 256 + 1) 9 items).1 ≡ (no_error, items)
dos_exit_list_undo_example =
    dos_exit_list_undo none 2 9 3 items (omega arith) (λ e. absurd (omega (arith, e)))
      (λ e. absurd (omega (arith, e)), tt)

fails : (dos_exit_list none 1 9 items).0 ≡ 8
unfolding dos_exit_list
fails = refl
