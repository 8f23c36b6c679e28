-- ===== src/Lx/Fixup/Records.antt =====
-- lx_loader.c: fixup records as data, their bytes, and reading their fields back.
use ine_debugger.Prelude.{ℕ, ◌+◌, ◌<◌, ◌≡◌, refl, arith}
use ine_debugger.Prelude.{Bool, true, false, not, List, [], ◌∷◌, ◌++◌}
use ine_debugger.Prelude.{◌==◌, if◌then◌else◌, length, drop, bit_and}
use ine_debugger.Prelude.Word.{IsU32}
use ine_debugger.Prelude.Memory.{ok, flag, le16, le32}
use ine_debugger.Prelude.Memory.Reads.{load8_at, load16_at, load32_at}
use ine_debugger.Lx.Fixup.{read_id, read_offset}
use ine_debugger.Lx.Fixup.{read_additive}

-- Where a record is applied: in one place, or in a list of places.
pub data Sources : Type 0 where
  one : ℕ → Sources
  many : List ℕ → Sources

-- The identifier of an object or of a module; an offset, an ordinal or the place of a name; and
-- what is added, where the flags say so.
pub record Fixup : Type 0 where
  pub srctype : ℕ
  pub flags : ℕ
  pub sources : Sources
  pub id : ℕ
  pub target : ℕ
  pub additive : ℕ

abbrev pub kind_of : Fixup → ℕ
kind_of r = bit_and r.srctype 0xf

abbrev pub id_bytes : Bool → ℕ → List ℕ
id_bytes wide v = if wide then le16 v else v ∷ []

abbrev pub offset_bytes : Bool → ℕ → List ℕ
offset_bytes wide v = if wide then le32 v else le16 v

abbrev pub words : List ℕ → List ℕ
words [] = []
words (v ∷ vs) = le16 v ++ words vs

abbrev pub is_list : Sources → Bool
is_list (one offset) = false
is_list (many offsets) = true

abbrev pub source_field : Sources → ℕ
source_field (one offset) = offset
source_field (many offsets) = length offsets

abbrev pub list_bytes : Sources → List ℕ
list_bytes (one offset) = []
list_bytes (many offsets) = words offsets

-- The operand behind the identifier, by the kind of target.
abbrev pub operand_bytes : Fixup → List ℕ
operand_bytes r =
    if bit_and r.flags 0x3 == 0
    then (if kind_of r == 2 then [] else offset_bytes (flag r.flags 0x10) r.target)
    else (if bit_and r.flags 0x3 == 1
        then (if flag r.flags 0x80
            then id_bytes false r.target
            else offset_bytes (flag r.flags 0x10) r.target)
        else offset_bytes (flag r.flags 0x10) r.target)

abbrev pub additive_bytes : Fixup → List ℕ
additive_bytes r = if flag r.flags 0x4 then offset_bytes (flag r.flags 0x20) r.additive else []

abbrev pub fixup_bytes : Fixup → List ℕ
fixup_bytes r =
    r.srctype
    ∷ r.flags
    ∷ (id_bytes (not (is_list r.sources)) (source_field r.sources)
        ++ (id_bytes (flag r.flags 0x40) r.id
            ++ (operand_bytes r ++ (additive_bytes r ++ list_bytes r.sources))))

-- A record of the three kinds that are written, whose bit for a list tells the truth.
pub record Encodable (r : Fixup) : Type 0 where
  pub lists : flag r.srctype 0x20 ≡ is_list r.sources
  pub target_kind : bit_and r.flags 0x3 < 3
  pub target_size : IsU32 r.target
  pub additive_size : IsU32 r.additive

pub read_id_at :
    (exe : List ℕ) (p v : ℕ) (wide : Bool) (rest : List ℕ)
    → drop p exe ≡ id_bytes wide v ++ rest
    → (read_id exe p wide ≡ ok (v, p + length (id_bytes wide v)))
      × (drop (p + length (id_bytes wide v)) exe ≡ rest)
unfolding read_id
read_id_at exe p v true rest e = let (l, d) = load16_at exe p v rest e in (ground (arith, l), d)
read_id_at exe p v false rest e = let (l, d) = load8_at exe p v rest e in (ground (arith, l), d)

pub read_offset_at :
    (exe : List ℕ) (p v : ℕ) (wide : Bool) (rest : List ℕ)
    → IsU32 v
    → drop p exe ≡ offset_bytes wide v ++ rest
    → (read_offset exe p wide ≡ ok (v, p + length (offset_bytes wide v)))
      × (drop (p + length (offset_bytes wide v)) exe ≡ rest)
unfolding read_offset
read_offset_at exe p v true rest h e =
    let (l, d) = load32_at exe p v rest h e in (ground (arith, l), d)
read_offset_at exe p v false rest h e =
    let (l, d) = load16_at exe p v rest e in (ground (arith, l), d)

-- An offset that is there or not.
read_optional_at :
    (exe : List ℕ) (p v : ℕ) (has wide : Bool) (rest : List ℕ)
    → IsU32 v
    → drop p exe ≡ (if has then offset_bytes wide v else []) ++ rest
    → ((if has then read_offset exe p wide else ok (0, p))
        ≡ ok (if has then v else 0, p + length (if has then offset_bytes wide v else [])))
      × (drop (p + length (if has then offset_bytes wide v else [])) exe ≡ rest)
read_optional_at exe p v true wide rest h e = read_offset_at exe p v wide rest h e
read_optional_at exe p v false wide rest h e =
    let same : p + 0 ≡ p = omega arith in rw same (refl, e)

pub read_additive_at :
    (exe : List ℕ) (p : ℕ) (r : Fixup) (rest : List ℕ)
    → Encodable r
    → drop p exe ≡ additive_bytes r ++ rest
    → (read_additive exe r.flags p
        ≡ ok (if flag r.flags 0x4 then r.additive else 0, p + length (additive_bytes r)))
      × (drop (p + length (additive_bytes r)) exe ≡ rest)
unfolding read_additive
read_additive_at exe p r rest h e =
    read_optional_at exe p r.additive (flag r.flags 0x4) (flag r.flags 0x20) rest h.additive_size e
