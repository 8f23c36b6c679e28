-- ===== src/Lx/Pages/Runs.antt =====
-- lx_loader.c: an object with a page of each kind.
use ine_debugger.Lx.Pages.{
  ObjectPage, Image, load_object, load_pages, load_page, source, put_bytes, put_page, put_unpacked,
  preload,
}
use ine_debugger.Lx.Pages.Contents.{IsSound}
use ine_debugger.Lx.Pages.Objects.{object_contents, load_object-object_contents}
use ine_debugger.Prelude.{◌≡◌, refl, arith, some, [], ◌∷◌}
use ine_debugger.Prelude.Memory.{ok, crash}

-- Pages of 4 bytes; the data begin at byte 1, and offsets count pairs of bytes.
abbrev image : Image
image = record {
  origexe = 99 ∷ 7 ∷ 8 ∷ 2 ∷ 0 ∷ 2 ∷ 0 ∷ 5 ∷ 6 ∷ [];
  data_pages_offset = 1;
  page_offset_shift = 1;
  page_size = 4;
}

abbrev copied : ObjectPage
copied = record { page_data_offset = 0; data_size = 2; flags = 0 }

abbrev blocks : ObjectPage
blocks = record { page_data_offset = 1; data_size = 6; flags = 1 }

abbrev zeros : ObjectPage
zeros = record { page_data_offset = 0; data_size = 0; flags = 3 }

copied-IsSound : IsSound image copied
copied-IsSound = record {
  within = omega arith;
  bytes = (omega arith, (omega arith, tt));
  fits = λ e. omega arith;
}

blocks-IsSound : IsSound image blocks
blocks-IsSound = record {
  within = omega arith;
  bytes =
      (omega arith, (omega arith, (omega arith, (omega arith, (omega arith, (omega arith, tt))))));
  fits = λ e. absurd (omega (arith, e));
}

zeros-IsSound : IsSound image zeros
zeros-IsSound = record { within = omega arith; bytes = tt; fits = λ e. omega arith }

load_object-object_contents_example :
    load_object image 14 (copied ∷ zeros ∷ blocks ∷ [])
    ≡ ok (object_contents image 14 (copied ∷ zeros ∷ blocks ∷ []))
load_object-object_contents_example =
    load_object-object_contents image 14 (copied ∷ zeros ∷ blocks ∷ [])
      (copied-IsSound, (zeros-IsSound, (blocks-IsSound, tt))) (omega arith) (omega arith)

object_run :
    object_contents image 9 (copied ∷ zeros ∷ []) ≡ some (7 ∷ 8 ∷ 0 ∷ 0 ∷ 0 ∷ 0 ∷ 0 ∷ 0 ∷ 0 ∷ [])
object_run = refl

-- A page whose data are longer than it runs over the end of the mapping.
too_long_run :
    load_object image 4 (record { page_data_offset = 0; data_size = 6; flags = 0 } ∷ []) ≡ crash
unfolding load_object load_pages load_page source put_bytes put_page put_unpacked preload
too_long_run = refl
