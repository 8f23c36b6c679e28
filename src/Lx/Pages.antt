-- ===== src/Lx/Pages.antt =====
-- lx_loader.c: how the pages of an object of an LX module get into memory (the loop over an object's
-- page table in loadLxModule), by the page formats of Unpack. The mapping is as mmap gives it: bytes
-- that are all 0. A source that is not wholly within the file counts as a bad access.
pub mod Contents
pub mod Objects
mod Runs
use ine_debugger.Prelude.{ℕ, zero, suc, ◌+◌, ◌-◌, ◌*◌, ◌^◌, Option, none, some, List, [], ◌∷◌, ◌++◌}
use ine_debugger.Prelude.{ltb, leb, ◌==◌, if◌then◌else◌, length, take, drop, replicate}
use ine_debugger.Prelude.Word.{u32, sub32, ◌<<◌}
use ine_debugger.Prelude.Memory.{Outcome, ok, crash, stuck, ◌>>=◌}
use ine_debugger.Unpack
use ine_debugger.Unpack.{Unpacked, decompress_iterated, decompress_exe_pack2}

-- LxObjectPageTableEntry
pub record ObjectPage : Type 0 where
  pub page_data_offset : ℕ
  pub data_size : ℕ
  pub flags : ℕ

-- The executable, and the fields of its header that the loop reads.
pub record Image : Type 0 where
  pub origexe : List ℕ
  pub data_pages_offset : ℕ
  pub page_offset_shift : ℕ
  pub page_size : ℕ

-- `origexe + lx->data_pages_offset + (objpage->page_data_offset << lx->page_offset_shift)`
abbrev pub source_at : Image → ObjectPage → ℕ
source_at f page = f.data_pages_offset + u32 (page.page_data_offset << f.page_offset_shift)

unfoldable pub source : Image → ObjectPage → Outcome (List ℕ)
source f page =
    if leb (source_at f page + page.data_size) (length f.origexe)
    then ok (take page.data_size (drop (source_at f page) f.origexe))
    else crash

-- Bytes written to the mapping from place `d` on.
unfoldable pub put_bytes : List ℕ → ℕ → List ℕ → Outcome (List ℕ)
put_bytes mem d bytes =
    if leb (d + length bytes) (length mem)
    then ok (take d mem ++ (bytes ++ drop (d + length bytes) mem))
    else crash

-- The mapping, or none where the load fails.
abbrev pub Loaded : Type 0
Loaded = Outcome (Option (List ℕ))

unfoldable pub put_page : List ℕ → ℕ → List ℕ → Loaded
unfolding put_bytes
put_page mem d bytes = do mem' ← put_bytes mem d bytes; ok (some mem')

unfoldable pub put_unpacked : List ℕ → ℕ → Unpacked → Loaded
put_unpacked mem d (Unpacked.ok out) = put_page mem d out
put_unpacked mem d Unpacked.failed = ok none
put_unpacked mem d Unpacked.fault = crash
put_unpacked mem d Unpacked.stuck = stuck

-- `memcpy`, and `memset` of what is left of the page. Nothing checks that the data fit into it.
unfoldable pub preload : ℕ → List ℕ → ℕ → List ℕ → Loaded
preload page_size mem d src = do
  mem' ← put_bytes mem d src
  (if ltb (length src) page_size
      then put_page mem' (d + length src) (replicate (page_size - length src) 0)
      else ok (some mem'))

-- The switch over the flags of a page, with the page at place `d` of the mapping.
unfoldable pub load_page : Image → List ℕ → ℕ → ObjectPage → Loaded
load_page f mem d page =
    if page.flags == 0
    then (do src ← source f page; preload f.page_size mem d src)
    else (if page.flags == 1
        then (do src ← source f page; put_unpacked mem d (decompress_iterated f.page_size src))
        else (if page.flags == 2
            then put_page mem d (replicate f.page_size 0)
            else (if page.flags == 3
                then put_page mem d (replicate f.page_size 0)
                else (if page.flags == 5
                    then (do
                      src ← source f page
                      put_unpacked mem d (decompress_exe_pack2 (take f.page_size (drop d mem)) src))
                    else ok none))))

-- The loop over the pages, and the bytes behind them: `remain` is a 32-bit difference.
unfoldable pub load_pages : Image → ℕ → List ObjectPage → List ℕ → ℕ → Loaded
load_pages f vsize [] mem d =
    let remain = sub32 vsize d in
    if remain == 0 then ok (some mem) else put_page mem d (replicate remain 0)
load_pages f vsize (page ∷ pages) mem d = do
  loaded ← load_page f mem d page
  elim loaded [ none ↦ ok none | some mem' ↦ load_pages f vsize pages mem' (d + f.page_size) ]

unfoldable pub load_object : Image → ℕ → List ObjectPage → Loaded
load_object f vsize pages = load_pages f vsize pages (replicate vsize 0) 0
