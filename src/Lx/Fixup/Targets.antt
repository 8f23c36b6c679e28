-- ===== src/Lx/Fixup/Targets.antt =====
-- lx_loader.c: what the target of a fixup record means, and reading it out of the bytes.
use ine_debugger.Prelude.{ℕ, ◌+◌, ◌≡◌, refl, sym, ap, ◌∙◌, arith}
use ine_debugger.Prelude.{Bool, true, false, ◌||◌, Option, List, [], ◌++◌}
use ine_debugger.Prelude.{◌==◌, if◌then◌else◌, length, drop, bit_and}
use ine_debugger.Prelude.Word.{IsU32}
use ine_debugger.Prelude.Memory.{Outcome, ok, halt, ◌>>=◌, bind_assoc, bind_cong, flag}
use ine_debugger.Lx.{Export}
use ine_debugger.Lx.Fixup.{Module, Target, read_id, read_offset, internal_target, ordinal_target}
use ine_debugger.Lx.Fixup.{name_target, import_value, import_name, looked_up, read_target}
use ine_debugger.Lx.Fixup.Records.{Fixup, Encodable, kind_of, id_bytes, offset_bytes, operand_bytes}
use ine_debugger.Lx.Fixup.Places.{
  stored, import_place, internal_place, import_value-stored, internal_value-stored,
}
use ine_debugger.Lx.Exports.{
  or_missing, get_module_proc_addr_by_ordinal, get_module_proc_addr_by_name,
}
use ine_debugger.Lx.Fixup.Records.{read_id_at, read_offset_at}

-- What a value computed by a target carries on to: the pointer behind the operand.
abbrev pub with_pointer : ℕ → ℕ × ℕ → Outcome Target
with_pointer p v = ok (v.0, v.1, p)

-- The value of a target, from the fields of the record alone.
abbrev pub internal_meaning : Module → Fixup → ℕ → Outcome (ℕ × ℕ)
internal_meaning m r finalval2 =
    internal_place m (flag r.srctype 0x10) r.id (if kind_of r == 2 then 0 else r.target)
    >>= stored (kind_of r) finalval2

internal_operand_at :
    (exe : List ℕ) (p v : ℕ) (empty wide : Bool) (rest : List ℕ)
    → IsU32 v
    → drop p exe ≡ (if empty then [] else offset_bytes wide v) ++ rest
    → ((if empty then ok (0, p) else read_offset exe p wide)
        ≡ ok (if empty then 0 else v, p + length (if empty then [] else offset_bytes wide v)))
      × (drop (p + length (if empty then [] else offset_bytes wide v)) exe ≡ rest)
internal_operand_at exe p v true wide rest h e =
    let same : p + 0 ≡ p = omega arith in rw same (refl, e)
internal_operand_at exe p v false wide rest h e = read_offset_at exe p v wide rest h e

internal_target_at :
    (exe : List ℕ) (m : Module) (r : Fixup) (finalval2 p : ℕ) (rest : List ℕ)
    → IsU32 r.target
    → drop p exe
      ≡ id_bytes (flag r.flags 0x40) r.id
        ++ ((if kind_of r == 2 then [] else offset_bytes (flag r.flags 0x10) r.target) ++ rest)
    → let q =
        p
        + length (id_bytes (flag r.flags 0x40) r.id)
        + length (if kind_of r == 2 then [] else offset_bytes (flag r.flags 0x10) r.target) in
      (internal_target exe m r.flags (kind_of r) (flag r.srctype 0x10) finalval2 p
        ≡ (internal_meaning m r finalval2 >>= with_pointer q))
      × (drop q exe ≡ rest)
unfolding internal_target
internal_target_at exe m r finalval2 p rest h e =
    let (e0, d0) = read_id_at exe p r.id (flag r.flags 0x40) _ e in
    let (e1, d1) =
      internal_operand_at exe _ r.target (kind_of r == 2) (flag r.flags 0x10) rest h d0 in
    let end =
      p
      + length (id_bytes (flag r.flags 0x40) r.id)
      + length (if kind_of r == 2 then [] else offset_bytes (flag r.flags 0x10) r.target) in
    (
      rw (e0, e1)
          (ap (λ (v : Outcome (ℕ × ℕ)). v >>= with_pointer end)
            (internal_value-stored m (kind_of r) r.id (if kind_of r == 2 then 0 else r.target)
              finalval2 (flag r.srctype 0x10))),
      d1,
    )

ordinal_operand_at :
    (exe : List ℕ) (p v : ℕ) (small wide : Bool) (rest : List ℕ)
    → IsU32 v
    → drop p exe ≡ (if small then id_bytes false v else offset_bytes wide v) ++ rest
    → ((if small then read_id exe p false else read_offset exe p wide)
        ≡ ok (v, p + length (if small then id_bytes false v else offset_bytes wide v)))
      × (drop (p + length (if small then id_bytes false v else offset_bytes wide v)) exe ≡ rest)
ordinal_operand_at exe p v true wide rest h e = read_id_at exe p v false rest e
ordinal_operand_at exe p v false wide rest h e = read_offset_at exe p v wide rest h e

-- What is stored of an import, once it has been looked up.
import_rest :
    (found : Outcome (ℕ × Option Export)) (kind finalval2 q : ℕ) (alias : Bool)
    → (found >>= λ f. import_value kind alias f.0 f.1 finalval2 >>= with_pointer q)
      ≡ ((found >>= λ f. stored kind finalval2 (import_place alias f.0 f.1)) >>= with_pointer q)
import_rest found kind finalval2 q alias =
    bind_cong found _ _ (λ f.
      ap (λ (v : Outcome (ℕ × ℕ)). v >>= with_pointer q)
        (import_value-stored kind f.0 finalval2 alias f.1))
    ∙ sym (bind_assoc found _ _)

module _ (deref : ℕ → Outcome ℕ) (trampoline : ℕ → Bool → Outcome (ℕ × Option Export)) where
  -- The export that a record names by its ordinal or by its name, in the module that it names;
  -- `end` is the place behind the operand.
  abbrev pub ordinal_found : Module → Fixup → ℕ → Outcome (ℕ × Option Export)
  ordinal_found m r end = looked_up m r.id λ exports.
      get_module_proc_addr_by_ordinal deref exports r.target true
      >>= or_missing (trampoline end (flag r.srctype 0x10))

  abbrev pub name_found : List ℕ → Module → Fixup → ℕ → Outcome (ℕ × Option Export)
  name_found exe m r end = looked_up m r.id λ exports.
      import_name exe (m.import_proc_table + r.target) >>= λ name.
      get_module_proc_addr_by_name deref exports name
      >>= or_missing (trampoline end (flag r.srctype 0x10))

  abbrev pub import_meaning : Fixup → ℕ → Outcome (ℕ × Option Export) → Outcome (ℕ × ℕ)
  import_meaning r finalval2 found =
      found >>= λ f. stored (kind_of r) finalval2 (import_place (flag r.srctype 0x10) f.0 f.1)

  ordinal_target_at :
      (exe : List ℕ) (m : Module) (r : Fixup) (finalval2 p : ℕ) (rest : List ℕ)
      → IsU32 r.target
      → drop p exe
        ≡ id_bytes (flag r.flags 0x40) r.id
          ++ ((if flag r.flags 0x80
                then id_bytes false r.target
                else offset_bytes (flag r.flags 0x10) r.target)
              ++ rest)
      → let q =
          p
          + length (id_bytes (flag r.flags 0x40) r.id)
          + length (
              if flag r.flags 0x80
              then id_bytes false r.target
              else offset_bytes (flag r.flags 0x10) r.target) in
        (ordinal_target deref trampoline exe m r.flags (kind_of r) (flag r.srctype 0x10) finalval2 p
          ≡ (import_meaning r finalval2 (ordinal_found m r q) >>= with_pointer q))
        × (drop q exe ≡ rest)
  unfolding ordinal_target
  ordinal_target_at exe m r finalval2 p rest h e =
      let (e0, d0) = read_id_at exe p r.id (flag r.flags 0x40) _ e in
      let (e1, d1) =
        ordinal_operand_at exe _ r.target (flag r.flags 0x80) (flag r.flags 0x10) rest h d0 in
      let end =
        p
        + length (id_bytes (flag r.flags 0x40) r.id)
        + length (
            if flag r.flags 0x80
            then id_bytes false r.target
            else offset_bytes (flag r.flags 0x10) r.target) in
      (
        rw (e0, e1)
            (import_rest (ordinal_found m r end) (kind_of r) finalval2 end (flag r.srctype 0x10)),
        d1,
      )

  name_target_at :
      (exe : List ℕ) (m : Module) (r : Fixup) (finalval2 p : ℕ) (rest : List ℕ)
      → IsU32 r.target
      → drop p exe
        ≡ id_bytes (flag r.flags 0x40) r.id ++ (offset_bytes (flag r.flags 0x10) r.target ++ rest)
      → let q =
          p
          + length (id_bytes (flag r.flags 0x40) r.id)
          + length (offset_bytes (flag r.flags 0x10) r.target) in
        (name_target deref trampoline exe m r.flags (kind_of r) (flag r.srctype 0x10) finalval2 p
          ≡ (import_meaning r finalval2 (name_found exe m r q) >>= with_pointer q))
        × (drop q exe ≡ rest)
  unfolding name_target
  name_target_at exe m r finalval2 p rest h e =
      let (e0, d0) = read_id_at exe p r.id (flag r.flags 0x40) _ e in
      let (e1, d1) = read_offset_at exe _ r.target (flag r.flags 0x10) rest h d0 in
      let end =
        p
        + length (id_bytes (flag r.flags 0x40) r.id)
        + length (offset_bytes (flag r.flags 0x10) r.target) in
      (
        rw (e0, e1)
            (import_rest (name_found exe m r end) (kind_of r) finalval2 end (flag r.srctype 0x10)),
        d1,
      )

  abbrev pub target_meaning : List ℕ → Module → Fixup → ℕ → ℕ → Outcome (ℕ × ℕ)
  target_meaning exe m r finalval2 end =
      if bit_and r.flags 0x3 == 0
      then internal_meaning m r finalval2
      else (if bit_and r.flags 0x3 == 1
          then import_meaning r finalval2 (ordinal_found m r end)
          else import_meaning r finalval2 (name_found exe m r end))

  read_target_branches :
      (exe : List ℕ) (m : Module) (r : Fixup) (finalval2 p : ℕ) (rest : List ℕ) (a b c : Bool)
      → (a || (b || c)) ≡ true
      → IsU32 r.target
      → let operand =
          if a
          then (if kind_of r == 2 then [] else offset_bytes (flag r.flags 0x10) r.target)
          else (if b
              then (if flag r.flags 0x80
                  then id_bytes false r.target
                  else offset_bytes (flag r.flags 0x10) r.target)
              else offset_bytes (flag r.flags 0x10) r.target) in
        let q = p + length (id_bytes (flag r.flags 0x40) r.id) + length operand in
        let alias = flag r.srctype 0x10 in
        drop p exe ≡ id_bytes (flag r.flags 0x40) r.id ++ (operand ++ rest)
        → ((if a
              then internal_target exe m r.flags (kind_of r) alias finalval2 p
              else (if b
                  then ordinal_target deref trampoline exe m r.flags (kind_of r) alias finalval2 p
                  else (if c
                      then name_target deref trampoline exe m r.flags (kind_of r) alias finalval2 p
                      else halt)))
            ≡ ((if a
                  then internal_meaning m r finalval2
                  else (if b
                      then import_meaning r finalval2 (ordinal_found m r q)
                      else import_meaning r finalval2 (name_found exe m r q)))
                >>= with_pointer q))
          × (drop q exe ≡ rest)
  read_target_branches exe m r finalval2 p rest true b c k h e =
      internal_target_at exe m r finalval2 p rest h e
  read_target_branches exe m r finalval2 p rest false true c k h e =
      ordinal_target_at exe m r finalval2 p rest h e
  read_target_branches exe m r finalval2 p rest false false true k h e =
      name_target_at exe m r finalval2 p rest h e
  read_target_branches exe m r finalval2 p rest false false false k h e = cc

  pub read_target_at :
      (exe : List ℕ) (m : Module) (r : Fixup) (finalval2 p : ℕ) (rest : List ℕ)
      → Encodable r
      → drop p exe ≡ id_bytes (flag r.flags 0x40) r.id ++ (operand_bytes r ++ rest)
      → let q = p + length (id_bytes (flag r.flags 0x40) r.id) + length (operand_bytes r) in
        (read_target deref trampoline exe m r.flags (kind_of r) (flag r.srctype 0x10) finalval2 p
          ≡ (target_meaning exe m r finalval2 q >>= with_pointer q))
        × (drop q exe ≡ rest)
  unfolding read_target
  read_target_at exe m r finalval2 p rest h e =
      let three = h.target_kind in
      let known : ((bit_and r.flags 0x3 == 0)
            || ((bit_and r.flags 0x3 == 1) || (bit_and r.flags 0x3 == 2)))
          ≡ true =
        ground (arith, three) in
      read_target_branches exe m r finalval2 p rest (bit_and r.flags 0x3 == 0)
        (bit_and r.flags 0x3 == 1) (bit_and r.flags 0x3 == 2) known h.target_size e
