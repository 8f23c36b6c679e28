-- ===== src/Lx/Sanity.antt =====
-- lx_loader.c: the checks of a module's header (sanityCheckModule, sanityCheckLxModule and
-- sanityCheckNeModule). Below 2 ^ 32 bytes of a file are read into memory.
pub mod Within
mod Runs
use ine_debugger.Prelude.{ℕ, suc, zero, ◌+◌, ◌-◌, ◌*◌, ◌^◌, ◌<◌, ◌≤◌, ◌≡◌, refl, arith, inl, inr}
use ine_debugger.Prelude.{
  Bool, true, false, ◌&&◌, ◌||◌, not, Option, none, some, List, [], ◌∷◌, length, get_elem?,
}
use ine_debugger.Prelude.{ltb, leb, ◌==◌, if◌then◌else◌, Bool-cases}
use ine_debugger.Prelude.Word.{sub32}
use ine_debugger.Prelude.Memory.{Outcome, ok, crash, ◌>>=◌, load8, load16, load32, flag}

-- Every field is read here, where the source stops at the first that is wrong: they all lie in the
-- file wherever the first two bytes of the header do.
unfoldable pub sanity_check_lx_module : List ℕ → ℕ → ℕ → Outcome Bool
sanity_check_lx_module exe p exelen =
    if leb exelen 172
    then ok false
    else (load8 exe (p + 2) >>= λ byte_order. load8 exe (p + 3) >>= λ word_order.
        load32 exe (p + 4) >>= λ lx_version. load16 exe (p + 8) >>= λ cpu_type.
        load16 exe (p + 10) >>= λ os_type. load32 exe (p + 40) >>= λ page_size.
        load32 exe (p + 16) >>= λ module_flags. ok (
          (byte_order == 0)
          && (word_order == 0)
          && (lx_version == 0)
          && leb cpu_type 3
          && (os_type == 1)
          && (page_size == 4096)
          && not (flag module_flags 0x2000)))

unfoldable pub sanity_check_ne_module : List ℕ → ℕ → ℕ → Outcome Bool
sanity_check_ne_module exe p exelen =
    if leb exelen 64 then ok false else (load8 exe (p + 54) >>= λ exe_type. ok (leb exe_type 1))

-- Where the header is, how much follows it, and whether it is an LX module.
abbrev pub accepted : ℕ → ℕ → Bool → Bool → Option (ℕ × ℕ × Bool)
accepted p exelen is_lx passes = if passes then some (p, exelen, is_lx) else none

unfoldable pub check_magic : List ℕ → ℕ → ℕ → ℕ → ℕ → Outcome (Option (ℕ × ℕ × Bool))
unfolding sanity_check_lx_module sanity_check_ne_module
check_magic exe p exelen m0 m1 =
    if (m0 == 76) && (m1 == 88)
    then (sanity_check_lx_module exe p exelen >>= λ passes. ok (accepted p exelen true passes))
    else (if (m0 == 78) && (m1 == 69)
        then (sanity_check_ne_module exe p exelen >>= λ passes. ok (accepted p exelen false passes))
        else ok none)

unfoldable pub sanity_check_module : List ℕ → Outcome (Option (ℕ × ℕ × Bool))
unfolding check_magic
sanity_check_module exe =
    if ltb (length exe) 62
    then ok none
    else (load32 exe 0x3c >>= λ header_offset. load8 exe header_offset >>= λ m0.
        load8 exe (header_offset + 1) >>= λ m1.
        check_magic exe header_offset (sub32 (length exe) header_offset) m0 m1)
