-- ===== src/Lx/Fixup/Page.antt =====
-- lx_loader.c, fixupPage: what the records of a page mean, and that the loop does it.
use mathlib.Core.List.{append_assoc}
use ine_debugger.Prelude.{ℕ, suc, ◌+◌, ◌*◌, ◌≡◌, refl, sym, ◌∙◌, arith}
use ine_debugger.Prelude.{Bool, true, false, not, Option, List, [], ◌∷◌, ◌++◌, All}
use ine_debugger.Prelude.{ltb, ◌==◌, if◌then◌else◌, length, length-append, drop}
use ine_debugger.Prelude.Word.{add32, sub32, IsU32}
use ine_debugger.Prelude.Memory.{Outcome, ok, ◌>>=◌, bind_assoc, bind_cong, load32, flag}
use ine_debugger.Prelude.Memory.Reads.{load8_at, load16_at}
use ine_debugger.Lx.{Export}
use ine_debugger.Lx.Fixup.{Module}
use ine_debugger.Lx.Fixup.{fix_sources, fix_all, fixup_record, fixup_records, fixup_page}
use ine_debugger.Lx.Fixup.Records.{Fixup, Sources, one, many, Encodable, kind_of, id_bytes, words}
use ine_debugger.Lx.Fixup.Records.{
  operand_bytes, additive_bytes, list_bytes, source_field, is_list, fixup_bytes,
}
use ine_debugger.Lx.Fixup.Records.{read_id_at, read_additive_at}
use ine_debugger.Lx.Fixup.Sources.{source_meaning, fix_source-meaning}
use ine_debugger.Lx.Fixup.Targets.{target_meaning, read_target_at}

abbrev pub places : Sources → List ℕ
places (one offset) = offset ∷ []
places (many offsets) = offsets

abbrev pub apply_sources : ℕ → ℕ → ℕ → ℕ → List ℕ → List ℕ → Outcome (List ℕ)
apply_sources page kind finalval finalval2 [] mem = ok mem
apply_sources page kind finalval finalval2 (offset ∷ offsets) mem =
    source_meaning page kind finalval finalval2 offset mem
    >>= apply_sources page kind finalval finalval2 offsets

-- Memory, and the pointer behind a record.
abbrev pub up_to : ℕ → List ℕ → Outcome (List ℕ × ℕ)
up_to p mem = ok (mem, p)

fix_sources_at :
    (exe : List ℕ) (page kind finalval finalval2 p : ℕ) (offsets mem rest : List ℕ)
    → drop p exe ≡ words offsets ++ rest
    → (fix_sources exe page kind finalval finalval2 (length offsets) p mem ≡ (
        apply_sources page kind finalval finalval2 offsets mem
        >>= up_to (p + length (words offsets))))
      × (drop (p + length (words offsets)) exe ≡ rest)
unfolding fix_sources
fix_sources_at exe page kind finalval finalval2 p [] mem rest e =
    let same : p + 0 ≡ p = omega arith in rw same (refl, e)
fix_sources_at exe page kind finalval finalval2 p (offset ∷ offsets) mem rest e =
    let (e0, d0) = load16_at exe p offset (words offsets ++ rest) e in
    let further : (mem' : List ℕ)
        → fix_sources exe page kind finalval finalval2 (length offsets) (p + 2) mem' ≡ (
            apply_sources page kind finalval finalval2 offsets mem'
            >>= up_to (p + 2 + length (words offsets))) =
      λ mem'. (fix_sources_at exe page kind finalval finalval2 (p + 2) offsets mem' rest d0).0 in
    let d1 = (fix_sources_at exe page kind finalval finalval2 (p + 2) offsets mem rest d0).1 in
    let source = source_meaning page kind finalval finalval2 offset mem in
    let one_source = fix_source-meaning page kind finalval finalval2 offset mem in
    let same : p + suc (suc (length (words offsets))) ≡ p + 2 + length (words offsets) =
      omega arith in
    rw same (rw (e0, one_source) (bind_cong source _ _ further ∙ sym (bind_assoc source _ _)), d1)

abbrev pub page_bytes : List Fixup → List ℕ
page_bytes [] = []
page_bytes (r ∷ rs) = fixup_bytes r ++ page_bytes rs

module _ (deref : ℕ → Outcome ℕ) (trampoline : ℕ → Bool → Outcome (ℕ × Option Export)) where
  fix_all_at :
      (exe : List ℕ) (page kind finalval finalval2 p : ℕ) (sources : Sources) (mem rest : List ℕ)
      → drop p exe ≡ list_bytes sources ++ rest
      → (fix_all deref trampoline exe page kind finalval finalval2
            (is_list sources)
            (source_field sources)
            p
            mem
          ≡ (apply_sources page kind finalval finalval2 (places sources) mem
              >>= up_to (p + length (list_bytes sources))))
        × (drop (p + length (list_bytes sources)) exe ≡ rest)
  unfolding fix_all
  fix_all_at exe page kind finalval finalval2 p (many offsets) mem rest e =
      fix_sources_at exe page kind finalval finalval2 p offsets mem rest e
  fix_all_at exe page kind finalval finalval2 p (one offset) mem rest e =
      let same : p + 0 ≡ p = omega arith in
      let one_source = fix_source-meaning page kind finalval finalval2 offset mem in
      rw same (
        rw one_source
            (sym (bind_assoc (source_meaning page kind finalval finalval2 offset mem) _ _)),
        e,
      )

  -- Where the operand of a record ends that starts at `p`.
  abbrev pub operand_end : ℕ → Fixup → ℕ
  operand_end p r =
      p
      + 1
      + 1
      + length (id_bytes (not (is_list r.sources)) (source_field r.sources))
      + length (id_bytes (flag r.flags 0x40) r.id)
      + length (operand_bytes r)

  -- A record that starts at `p`, from its fields alone.
  abbrev pub fixup_meaning : List ℕ → Module → ℕ → ℕ → Fixup → List ℕ → Outcome (List ℕ)
  fixup_meaning exe m page p r mem =
      target_meaning deref trampoline exe m r (if kind_of r == 6 then m.original_cs else 0)
        (operand_end p r)
      >>= λ value.
          apply_sources page (kind_of r)
            (add32 value.0 (if flag r.flags 0x4 then r.additive else 0)) value.1 (places r.sources)
            mem

  -- The bytes of a record, one field after the other.
  split_fields :
      (r : Fixup) (rest : List ℕ)
      → fixup_bytes r ++ rest
        ≡ r.srctype
          ∷ r.flags
          ∷ (id_bytes (not (is_list r.sources)) (source_field r.sources)
              ++ (id_bytes (flag r.flags 0x40) r.id
                  ++ (operand_bytes r ++ (additive_bytes r ++ (list_bytes r.sources ++ rest)))))
  split_fields r rest = simp append_assoc

  fields_length :
      (r : Fixup) (p : ℕ)
      → p + length (fixup_bytes r)
        ≡ p
          + 1
          + 1
          + length (id_bytes (not (is_list r.sources)) (source_field r.sources))
          + length (id_bytes (flag r.flags 0x40) r.id)
          + length (operand_bytes r)
          + length (additive_bytes r)
          + length (list_bytes r.sources)
  fields_length r p = simp length-append (omega arith)

  fixup_record_at :
      (exe : List ℕ) (m : Module) (page p : ℕ) (r : Fixup) (mem rest : List ℕ)
      → Encodable r
      → drop p exe ≡ fixup_bytes r ++ rest
      → (fixup_record deref trampoline exe m page p mem
          ≡ (fixup_meaning exe m page p r mem >>= up_to (p + length (fixup_bytes r))))
        × (drop (p + length (fixup_bytes r)) exe ≡ rest)
  unfolding fixup_record
  fixup_record_at exe m page p r mem rest h e =
      let (e0, d0) = load8_at exe p r.srctype _ (e ∙ split_fields r rest) in
      let (e1, d1) = load8_at exe (p + 1) r.flags _ d0 in
      let (e2, d2) =
        read_id_at exe (p + 1 + 1) (source_field r.sources) (not (is_list r.sources)) _ d1 in
      let finalval2 = if kind_of r == 6 then m.original_cs else 0 in
      let meaning = target_meaning deref trampoline exe m r finalval2 (operand_end p r) in
      let (e3, d3) = read_target_at deref trampoline exe m r finalval2 _ _ h d2 in
      let (e4, d4) = read_additive_at exe _ r _ h d3 in
      let applied = λ (v : ℕ × ℕ).
        (fix_all_at exe page (kind_of r) (add32 v.0 (if flag r.flags 0x4 then r.additive else 0))
          v.1 _ r.sources mem rest d4).0 in
      let d5 = (fix_all_at exe page (kind_of r) 0 0 _ r.sources mem rest d4).1 in
      let two : p + 2 ≡ p + 1 + 1 = omega arith in
      let length_fields = fields_length r p in
      rw length_fields (
        rw (e0, e1, h.lists, two, e2, e3)
            (bind_assoc meaning _ _
              ∙ bind_cong meaning _ _ (λ v. rw e4 (applied v))
              ∙ sym (bind_assoc meaning _ _)),
        d5,
      )

  abbrev pub page_meaning : List ℕ → Module → ℕ → ℕ → List Fixup → List ℕ → Outcome (List ℕ)
  page_meaning exe m page p [] mem = ok mem
  page_meaning exe m page p (r ∷ rs) mem =
      fixup_meaning exe m page p r mem >>= page_meaning exe m page (p + length (fixup_bytes r)) rs

  -- As many rounds as there are records, and the one that sees the end.
  fixup_records_at :
      (exe : List ℕ) (m : Module) (page p : ℕ) (rs : List Fixup) (mem rest : List ℕ)
      → All Encodable rs
      → drop p exe ≡ page_bytes rs ++ rest
      → fixup_records deref trampoline
          (suc (length rs))
          exe
          m
          page
          p
          (p + length (page_bytes rs))
          mem
        ≡ page_meaning exe m page p rs mem
  unfolding fixup_records
  fixup_records_at exe m page p [] mem rest h e =
      let same : ltb p (p + 0) ≡ false = ground arith in rw (fixup_records, same)
  fixup_records_at exe m page p (r ∷ rs) mem rest (h, hs) e =
      let (e0, d0) =
        fixup_record_at exe m page p r mem _ h
          (e ∙ append_assoc (fixup_bytes r) (page_bytes rs) rest) in
      let more : ltb p (p + length (fixup_bytes r ++ page_bytes rs)) ≡ true = ground arith in
      let total : p + length (fixup_bytes r ++ page_bytes rs)
          ≡ p + length (fixup_bytes r) + length (page_bytes rs) =
        omega (arith, length-append (fixup_bytes r) (page_bytes rs)) in
      let meaning = fixup_meaning exe m page p r mem in
      let further : (mem' : List ℕ)
          → fixup_records deref trampoline (suc (length rs)) exe m page (p + length (fixup_bytes r))
              (p + length (page_bytes (r ∷ rs))) mem'
            ≡ page_meaning exe m page (p + length (fixup_bytes r)) rs mem' =
        λ mem'.
          rw total (fixup_records_at exe m page (p + length (fixup_bytes r)) rs mem' rest hs d0) in
      rw (fixup_records, more, e0) (bind_assoc meaning _ _ ∙ bind_cong meaning _ _ further)

  -- A page whose entries in the fixup page table bound the bytes of some records ends up as these
  -- records mean, one after the other: within one round for each and one to see the end, with each
  -- number read from where the record has it. What a record means is said by the place of its target,
  -- flat or far, by what its kind stores of that, and by the bytes that are written; exports are those
  -- that the lookups find, or what a trampoline gives.
  pub fixup_page-page_bytes :
      (exe : List ℕ) (m : Module) (page_table record_table pagenum page first : ℕ) (rs : List Fixup)
      (mem rest : List ℕ)
      → All Encodable rs
      → load32 exe (page_table + 4 * pagenum) ≡ ok first
      → load32 exe (page_table + 4 * pagenum + 4) ≡ ok (first + length (page_bytes rs))
      → IsU32 (first + length (page_bytes rs))
      → drop (record_table + first) exe ≡ page_bytes rs ++ rest
      → fixup_page deref trampoline (suc (length rs)) exe m page_table record_table pagenum page mem
        ≡ page_meaning exe m page (record_table + first) rs mem
  unfolding fixup_page
  fixup_page-page_bytes exe m page_table record_table pagenum page first rs mem rest h e0 e1 bound
        e =
      let size : sub32 (first + length (page_bytes rs)) first ≡ length (page_bytes rs) =
        omega (arith, bound) in
      rw (e0, e1, size) (fixup_records_at exe m page (record_table + first) rs mem rest h e)
