-- ===== src/Doscalls/ExitList.antt =====
-- native/doscalls.c: DosExitList, the list of functions that run when the process ends. A list node
-- is an item; the list holds them in order.
use ine_debugger.Doscalls.Errors.{
  no_error, error_invalid_function, error_not_enough_memory, error_invalid_data,
}
use ine_debugger.Prelude.{ℕ, ◌+◌, ◌*◌, ◌/◌, ◌%◌, ◌<◌, ◌≢◌, ◌≡◌, arith, inl, inr}
use ine_debugger.Prelude.{◌&&◌, not, Option, none, some, List, [], ◌∷◌, All}
use ine_debugger.Prelude.{leb, ◌==◌, if◌then◌else◌, Bool-cases, Option-cases}

-- ExitListItem without its link.
pub record ExitListItem : Type 0 where
  pub fn : ℕ
  pub priority : ℕ

-- The loop of EXLST_ADD: the new item goes in front of the first one with at least this priority.
unfoldable pub insert_item : ℕ → ExitListItem → List ExitListItem → List ExitListItem
insert_item arg newitem [] = newitem ∷ []
insert_item arg newitem (item ∷ items) =
    let further = insert_item arg newitem items in
    if leb arg item.priority then newitem ∷ item ∷ items else item ∷ further

-- The loop of EXLST_REMOVE: the list without the first item of a function.
unfoldable pub remove_item : ℕ → List ExitListItem → Option (List ExitListItem)
remove_item fn [] = none
remove_item fn (item ∷ items) =
    let further = remove_item fn items in
    if item.fn == fn
    then some items
    else elim further [ none ↦ none | some items' ↦ some (item ∷ items') ]

-- What malloc answers: NULL, or memory, with what stands in the field `priority` of it, since the
-- code does not store one.
abbrev pub Malloc : Type 0
Malloc = Option ℕ

-- The return code and GExitList afterwards.
unfoldable pub dos_exit_list : Malloc → ℕ → ℕ → List ExitListItem → ℕ × List ExitListItem
unfolding insert_item remove_item
dos_exit_list malloc ordercode fn items =
    let cmd = ordercode % 256 in
    let arg = ordercode / 256 % 256 in
    if fn == 0
    then (error_invalid_function, items)
    else (if not (cmd == 1) && not (arg == 0)
        then (error_invalid_data, items)
        else (if cmd == 1
            then elim malloc [
              | none ↦ (error_not_enough_memory, items)
              | some priority ↦
                  (no_error, insert_item arg (record { fn = fn; priority = priority }) items)
            ]
            else (if cmd == 2
                then elim (remove_item fn items) [
                  | none ↦ (error_invalid_function, items)
                  | some items' ↦ (no_error, items')
                ]
                else (if cmd == 3 then (no_error, items) else (error_invalid_data, items)))))

remove_item-insert_item :
    (arg fn priority : ℕ) (items : List ExitListItem)
    → All (λ item. item.fn ≢ fn) items
    → remove_item fn (insert_item arg (record { fn = fn; priority = priority }) items) ≡ some items
unfolding remove_item insert_item
remove_item-insert_item arg fn priority [] ok = ground arith
remove_item-insert_item arg fn priority (item ∷ items) (other, ok) =
    elim (Bool-cases (leb arg item.priority)) [
      | inl here ↦ ground (arith, here)
      | inr further ↦
          ground (arith, further, other, remove_item-insert_item arg fn priority items ok)
    ]

-- A function that was not in the list and is added with any order is taken off again by
-- EXLST_REMOVE, which succeeds; the list is then as it was before both calls.
pub dos_exit_list_undo :
    (malloc : Malloc) (arg fn priority : ℕ) (items : List ExitListItem)
    → arg < 256
    → fn ≢ 0
    → All (λ item. item.fn ≢ fn) items
    → dos_exit_list malloc 2 fn (dos_exit_list (some priority) (arg * 256 + 1) fn items).1
      ≡ (no_error, items)
unfolding dos_exit_list
dos_exit_list_undo malloc arg fn priority items small some_fn ok =
    let cmd : (arg * 256 + 1) % 256 ≡ 1 = omega arith in
    let order : (arg * 256 + 1) / 256 % 256 ≡ arg = omega arith in
    ground (arith, cmd, order, remove_item-insert_item arg fn priority items ok)

-- Where a call answers an error, the list is as it was.
pub dos_exit_list_error :
    (malloc : Malloc) (ordercode fn : ℕ) (items : List ExitListItem)
    → (dos_exit_list malloc ordercode fn items).0 ≢ no_error
    → (dos_exit_list malloc ordercode fn items).1 ≡ items
unfolding dos_exit_list
dos_exit_list_error none ordercode fn items err = elim (Option-cases (remove_item fn items)) [
  | inl nothing ↦ ground (arith, nothing)
  | inr (items', taken) ↦ ground (arith, taken)
]
dos_exit_list_error (some priority) ordercode fn items err =
    elim (Option-cases (remove_item fn items)) [
      | inl nothing ↦ ground (arith, nothing)
      | inr (items', taken) ↦ ground (arith, taken)
    ]
