-- ===== src/Lx/Exports/Laws.antt =====
-- lx_loader.c: name tables as data, and what loading one does to the exports.
use ine_debugger.Prelude.{ℕ, ◌<◌, ◌≡◌, ◌≢◌, refl, sym, ap, ◌∙◌, arith, Bool, true, false, inl, inr}
use ine_debugger.Prelude.{Option, none, some, List, [], ◌∷◌, ◌++◌, All, length}
use ine_debugger.Prelude.{◌==◌, if◌then◌else◌, Bool-cases}
use ine_debugger.Prelude.Memory.{Outcome, ok, ◌>>=◌, bind_assoc, le16}
use ine_debugger.Lx.{Export}
use ine_debugger.Lx.Exports.{address, same_string, name_export}
use ine_debugger.Lx.Exports.{get_module_proc_addr_by_ordinal, get_module_proc_addr_by_name}

-- An entry of the table: a name and the ordinal it goes with.
pub record Entry : Type 0 where
  pub name : List ℕ
  pub ordinal : ℕ

-- A name fits a length byte, is not empty and has no 0 in it.
pub record Nameable (entry : Entry) : Type 0 where
  pub not_empty : 0 < length entry.name
  pub no_zero : All (λ b. 0 < b) entry.name

abbrev pub table_bytes : List Entry → List ℕ
table_bytes [] = 0 ∷ []
table_bytes (entry ∷ entries) =
    length entry.name ∷ (entry.name ++ (le16 entry.ordinal ++ table_bytes entries))

-- Entries with ordinal 0 describe the module and name nothing.
abbrev pub name_all : List Entry → List Export → List Export
name_all [] exports = exports
name_all (entry ∷ entries) exports =
    name_all entries
      (if entry.ordinal == 0 then exports else name_export entry.ordinal entry.name exports)

-- The address that a lookup answers.
abbrev pub address_of : Option (ℕ × Export) → Outcome (Option ℕ)
address_of none = ok none
address_of (some found) = ok (some found.0)

name_export_lookup :
    (deref : ℕ → Outcome ℕ) (o : ℕ) (name : List ℕ) (exports : List Export) (k : ℕ) (native : Bool)
    → (get_module_proc_addr_by_ordinal deref (name_export o name exports) k native >>= address_of)
      ≡ (get_module_proc_addr_by_ordinal deref exports k native >>= address_of)
unfolding name_export get_module_proc_addr_by_ordinal
name_export_lookup deref o name [] k native = refl
name_export_lookup deref o name (export ∷ exports) k native =
    let ih = name_export_lookup deref o name exports k native in
    let given = record export { name = some name } in
    elim (Bool-cases (export.ordinal == o)) [
      | inl same ↦ rw same (elim (Bool-cases (export.ordinal == k)) [
        | inl found ↦ rw found (
            bind_assoc (address deref native given) _ address_of
            ∙ sym (bind_assoc (address deref native export) _ address_of))
        | inr on ↦ rw on refl
      ])
      | inr other ↦ rw other (elim (Bool-cases (export.ordinal == k)) [
        | inl found ↦ rw found refl
        | inr on ↦ rw on ih
      ])
    ]

-- Loading names moves no export: a lookup by ordinal answers the same address before and after.
pub by_ordinal-name_all :
    (deref : ℕ → Outcome ℕ) (entries : List Entry) (exports : List Export) (k : ℕ) (native : Bool)
    → (get_module_proc_addr_by_ordinal deref (name_all entries exports) k native >>= address_of)
      ≡ (get_module_proc_addr_by_ordinal deref exports k native >>= address_of)
by_ordinal-name_all deref [] exports k native = refl
by_ordinal-name_all deref (entry ∷ entries) exports k native =
    elim (Bool-cases (entry.ordinal == 0)) [
      | inl nothing ↦ rw nothing (by_ordinal-name_all deref entries exports k native)
      | inr named ↦ rw named (
          by_ordinal-name_all deref entries (name_export entry.ordinal entry.name exports) k native
          ∙ name_export_lookup deref entry.ordinal entry.name exports k native)
    ]

same_string_iff : (xs ys : List ℕ) → same_string xs ys ≡ true → xs ≡ ys
unfolding same_string
same_string_iff [] [] e = refl
same_string_iff [] (y ∷ ys) e = cc
same_string_iff (x ∷ xs) [] e = cc
same_string_iff (x ∷ xs) (y ∷ ys) e =
    let heads : x ≡ y = ground (arith, e) in
    let tails : same_string xs ys ≡ true = ground (arith, e) in
    let rest = same_string_iff xs ys tails in cc

abbrev pub Named : Export → Type 0
Named export = (given : List ℕ) × (export.name ≡ some given)

-- The first export of a name answers it, at the address that a native caller or a bridge uses.
pub data Found (deref : ℕ → Outcome ℕ) (name : List ℕ)
    : List Export → Option (ℕ × Export) → Type 0 where
  nowhere : Found deref name [] none
  here :
      (export : Export)
      → (exports : List Export) → (retval : ℕ) → export.name ≡ some name
      → address deref true export ≡ ok retval
      → Found deref name (export ∷ exports) (some (retval, export))
  later :
      (export : Export)
      → (exports : List Export) → (r : Option (ℕ × Export)) → export.name ≢ some name
      → Found deref name exports r
      → Found deref name (export ∷ exports) r

-- An export that is no bridge, or that stands where a pointer can be read.
abbrev pub Readable : (ℕ → Outcome ℕ) → Export → Type 0
Readable deref export = (retval : ℕ) × (address deref true export ≡ ok retval)

same_string_self : (xs : List ℕ) → same_string xs xs ≡ true
unfolding same_string
same_string_self [] = refl
same_string_self (x ∷ xs) = let e = same_string_self xs in ground (arith, e)

differs_other :
    (given name : List ℕ) (o : Option (List ℕ))
    → o ≡ some given
    → same_string given name ≡ false
    → o ≢ some name
differs_other given name o e differs h =
    let alike = same_string_self name in
    let equal : given ≡ name = cc in let same : same_string given name ≡ true = rw equal alike in cc

-- Where every export has a name, and every bridge stands where a pointer can be read, a lookup by
-- name ends without a crash, and answers the first export of that name or, where there is none,
-- nothing.
pub by_name-Found :
    (deref : ℕ → Outcome ℕ) (exports : List Export) (name : List ℕ)
    → All Named exports
    → All (Readable deref) exports
    → (r : Option (ℕ × Export)) × (get_module_proc_addr_by_name deref exports name ≡ ok r)
      × Found deref name exports r
unfolding get_module_proc_addr_by_name
by_name-Found deref [] name h reads = (none, refl, nowhere)
by_name-Found deref (export ∷ exports) name ((given, e), hs) ((retval, read), reads) =
    elim (Bool-cases (same_string given name)) [
      | inl same ↦
          let equal = same_string_iff given name same in
          (
            some (retval, export),
            simp (e, same, read) refl,
            here export exports retval (e ∙ ap some equal) read,
          )
      | inr differs ↦
          let (r, further, found) = by_name-Found deref exports name hs reads in
          let other = differs_other given name export.name e differs in
          (r, rw (e, differs) further, later export exports r other found)
    ]
