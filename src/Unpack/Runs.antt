-- ===== src/Unpack/Runs.antt =====
-- Runs of the two page formats, and their theorems at concrete inputs.
use ine_debugger.Prelude.{◌-◌, ◌≡◌, refl, arith, List, [], ◌∷◌, ◌++◌}
use ine_debugger.Prelude.{length, replicate}
use ine_debugger.Unpack.{ok, failed, fault, stuck, iterated_loop, decompress_iterated}
use ine_debugger.Unpack.{pack2_loop, pad, pass, decompress_exe_pack2}
use ine_debugger.Unpack.Blocks.{Block, encode, expand}
use ine_debugger.Unpack.Encoding.{decompress_iterated-encode}
use ine_debugger.Unpack.Iterated.{decompress_iterated-IsExpansion}
use ine_debugger.Unpack.Iterated.{decompress_iterated-Returns, IsExpansion}
use ine_debugger.Unpack.Pack2.{Returns}

abbrev blocks : List Block
blocks =
    record { iterations = 2; chunk = 7 ∷ 8 ∷ [] } ∷ record { iterations = 3; chunk = 9 ∷ [] } ∷ []

unpacked : decompress_iterated 8 (encode blocks) ≡ ok (7 ∷ 8 ∷ 7 ∷ 8 ∷ 9 ∷ 9 ∷ 9 ∷ 0 ∷ [])
unfolding decompress_iterated iterated_loop
unpacked = refl

too_long : decompress_iterated 6 (encode blocks) ≡ failed
unfolding decompress_iterated iterated_loop
too_long = refl

-- Two literals, a run, and a copy from two bytes back.
packed :
    decompress_exe_pack2 (replicate 10 1) (0x08 ∷ 5 ∷ 6 ∷ 0 ∷ 3 ∷ 9 ∷ 0x22 ∷ 0 ∷ [])
    ≡ ok (5 ∷ 6 ∷ 9 ∷ 9 ∷ 9 ∷ 9 ∷ 9 ∷ 9 ∷ 0 ∷ 0 ∷ [])
unfolding decompress_exe_pack2 pack2_loop
packed = refl

-- A copy from in front of the page is refused.
bad_copy : decompress_exe_pack2 (replicate 10 1) (0x22 ∷ 0 ∷ []) ≡ failed
unfolding decompress_exe_pack2 pack2_loop
bad_copy = refl

decompress_iterated-encode_run :
    decompress_iterated 8 (encode blocks)
    ≡ ok (expand blocks ++ replicate (8 - length (expand blocks)) 0)
decompress_iterated-encode_run =
    decompress_iterated-encode blocks 8 (omega arith)
      (unfold ine_debugger.Unpack.repeat in omega arith)

decompress_iterated-IsExpansion_example :
    IsExpansion 8 (encode blocks) (7 ∷ 8 ∷ 7 ∷ 8 ∷ 9 ∷ 9 ∷ 9 ∷ 0 ∷ [])
decompress_iterated-IsExpansion_example =
    decompress_iterated-IsExpansion 8 (encode blocks) (7 ∷ 8 ∷ 7 ∷ 8 ∷ 9 ∷ 9 ∷ 9 ∷ 0 ∷ [])
      (omega arith) unpacked

decompress_iterated-Returns_example : Returns 6 (decompress_iterated 6 (encode blocks))
decompress_iterated-Returns_example = decompress_iterated-Returns 6 (encode blocks) (omega arith)
