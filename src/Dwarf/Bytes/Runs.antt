-- ===== src/Dwarf/Bytes/Runs.antt =====
-- Runs of the LEB128 readers, and their theorems at concrete inputs.
use ine_debugger.Prelude.{◌+◌, ◌≡◌, refl, arith, some, none, [], ◌∷◌, ◌++◌, length}
use ine_debugger.Dwarf.Bytes.{read_uleb128, read_sleb128}
use ine_debugger.Dwarf.Bytes.SignedLeb.{sleb_bytes, pattern_of, read_sleb128-sleb_bytes}
use ine_debugger.Prelude.{true}
use ine_debugger.Dwarf.Bytes.Leb.{uleb_bytes, read_uleb128-uleb_bytes}

uleb_624485 : read_uleb128 (9 ∷ 0xE5 ∷ 0x8E ∷ 0x26 ∷ 7 ∷ []) 1 ≡ some (624485, 4)
unfolding read_uleb128
uleb_624485 = refl

sleb_minus_two : read_sleb128 (0x7E ∷ []) 0 ≡ some (0xFFFF_FFFE, 1)
unfolding read_sleb128
sleb_minus_two = refl

uleb_cut : read_uleb128 (0x80 ∷ []) 0 ≡ none
unfolding read_uleb128
uleb_cut = refl

read_uleb128-uleb_bytes_example :
    read_uleb128 ((9 ∷ []) ++ (uleb_bytes 4 624485 ++ (7 ∷ []))) 1
    ≡ some (624485, 1 + length (uleb_bytes 4 624485))
read_uleb128-uleb_bytes_example =
    read_uleb128-uleb_bytes 624485 1 (9 ∷ []) (7 ∷ []) (omega arith) refl

-- -1000, in two groups behind a byte and in front of another
read_sleb128-sleb_bytes_example :
    read_sleb128 ((7 ∷ []) ++ (sleb_bytes 4 true 999 ++ (9 ∷ []))) 1
    ≡ some (pattern_of true 999, 1 + length (sleb_bytes 4 true 999))
read_sleb128-sleb_bytes_example =
    read_sleb128-sleb_bytes true 999 1 (7 ∷ []) (9 ∷ []) (omega arith) refl
