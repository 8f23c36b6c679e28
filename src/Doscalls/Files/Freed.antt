-- ===== src/Doscalls/Files/Freed.antt =====
-- native/doscalls.c: a slot of the table of handles that is taken, and given up again.
use ine_debugger.Prelude.{ℕ, zero, suc, ◌<◌, ◌≡◌, ◌≢◌, refl, sym, ap, ◌∙◌, arith, inl, inr}
use ine_debugger.Prelude.{Bool, true, false, some, List, [], ◌∷◌}
use ine_debugger.Prelude.{length, get_elem?, set, get_elem?-set_self, get_elem?-set_ne}
use ine_debugger.Prelude.{◌==◌, if◌then◌else◌, Bool-cases}
use ine_debugger.Doscalls.Files.{HFileInfo, closed, reserved, no_file, modify}
use ine_debugger.Doscalls.Files.{get_h_file_unix_descriptor}
use ine_debugger.Doscalls.Files.Slots.{Reserves, modify_here, modify_elsewhere}
use ine_debugger.Doscalls.Files.Open.{file_created, file_existed, file_truncated}
use ine_debugger.Doscalls.Files.Open.{}
use ine_debugger.Doscalls.Files.Open.{release}

-- Every slot has the descriptor it had.
abbrev pub SameDescriptors : List HFileInfo → List HFileInfo → Type 0
SameDescriptors h_files table =
    (h : ℕ) → get_h_file_unix_descriptor table h ≡ get_h_file_unix_descriptor h_files h

pub get_elem?-length :
    (h_files : List HFileInfo) (h : ℕ) (info : HFileInfo)
    → get_elem? h_files h ≡ some info
    → h < length h_files
get_elem?-length [] h info e = cc
get_elem?-length (first ∷ infos) zero info e = omega arith
get_elem?-length (first ∷ infos) (suc h) info e =
    let k = get_elem?-length infos h info e in omega (arith, k)

pub descriptor_at :
    (table : List HFileInfo) (h : ℕ) (info : HFileInfo)
    → get_elem? table h ≡ some info
    → get_h_file_unix_descriptor table h ≡ info.fd
unfolding get_h_file_unix_descriptor
descriptor_at table h info e = ground (arith, e)

pub descriptor_same :
    (table other : List HFileInfo) (h : ℕ)
    → get_elem? table h ≡ get_elem? other h
    → get_h_file_unix_descriptor table h ≡ get_h_file_unix_descriptor other h
unfolding get_h_file_unix_descriptor
descriptor_same table other h e = rw (get_h_file_unix_descriptor, e)

pub table_elsewhere :
    (h_files table : List HFileInfo) (hf k : ℕ)
    → Reserves h_files hf table
    → hf ≢ k
    → get_elem? table k ≡ get_elem? h_files k
table_elsewhere h_files table hf k slot d =
    ap (λ (t : List HFileInfo). get_elem? t k) slot.is_set
    ∙ get_elem?-set_ne h_files (record slot.slot { fd = reserved }) d

pub table_here :
    (h_files table : List HFileInfo) (hf : ℕ)
    → (slot : Reserves h_files hf table)
    → get_elem? table hf ≡ some (record slot.slot { fd = reserved })
table_here h_files table hf slot =
    ap (λ (t : List HFileInfo). get_elem? t hf) slot.is_set
    ∙ get_elem?-set_self h_files hf (record slot.slot { fd = reserved })
        (get_elem?-length h_files hf slot.slot slot.was_there)

-- A slot that is taken and then freed in some way.
pub freed :
    (h_files table after : List HFileInfo) (hf : ℕ) (last : HFileInfo)
    → Reserves h_files hf table
    → get_elem? after hf ≡ some last
    → last.fd ≡ closed
    → ((k : ℕ) → hf ≢ k → get_elem? after k ≡ get_elem? table k)
    → SameDescriptors h_files after
freed h_files table after hf last slot here free elsewhere h = elim (Bool-cases (hf == h)) [
  | inl same ↦
      let at : hf ≡ h = ground (arith, same) in
      rw (sym at) (
        descriptor_at after hf last here
        ∙ free
        ∙ sym slot.was_closed
        ∙ sym (descriptor_at h_files hf slot.slot slot.was_there))
  | inr differs ↦
      let apart : hf ≢ h = ground (arith, differs) in
      descriptor_same after h_files h
        (elsewhere h apart ∙ table_elsewhere h_files table hf h slot apart)
]

pub released :
    (h_files table : List HFileInfo) (hf : ℕ)
    → Reserves h_files hf table
    → SameDescriptors h_files (modify table hf release)
released h_files table hf slot =
    freed h_files table (modify table hf release) hf (record slot.slot { fd = closed }) slot
      (modify_here table hf (record slot.slot { fd = reserved }) release
        (table_here h_files table hf slot))
      refl (λ k d. modify_elsewhere table hf k release d)

pub cleared :
    (h_files table : List HFileInfo) (hf : ℕ)
    → Reserves h_files hf table
    → SameDescriptors h_files (set table hf no_file)
cleared h_files table hf slot =
    let there = get_elem?-length table hf _ (table_here h_files table hf slot) in
    freed h_files table (set table hf no_file) hf no_file slot
      (get_elem?-set_self table hf no_file there) refl (λ k d. get_elem?-set_ne table no_file d)

pub action_not_created :
    (replacing existed : Bool)
    → existed ≡ true
    → (if replacing then file_truncated else (if existed then file_existed else file_created))
      ≢ file_created
action_not_created true existed e h = cc
action_not_created false true e h = cc
action_not_created false false e h = cc

pub some_ne {ℓ} : {A : Type ℓ} (a b : A) → a ≢ b → some a ≢ some b
some_ne a b d e = d (cc)

pub released_length :
    (table : List HFileInfo) (hf : ℕ) → length (modify table hf release) ≡ length table
released_length [] hf = refl
released_length (info ∷ infos) zero = refl
released_length (info ∷ infos) (suc hf) = ap suc (released_length infos hf)
