-- ===== src/Lx.antt =====
-- lx_loader.c: executables and the modules made of them. A pointer into an executable is an offset
-- into the list of its bytes; addresses of mapped memory are numbers.
pub mod Exports
pub mod Bundles
pub mod Entries
pub mod NeEntries
pub mod Pages
pub mod Fixup
pub mod NeFixup
pub mod Sanity
use ine_debugger.Prelude.{ℕ, Option, List}

-- An entry of `mmaps`, as far as fixups read it.
pub record Object : Type 0 where
  pub addr : ℕ
  pub alias : ℕ

-- LxExport; a name that is NULL is `none`.
pub record Export : Type 0 where
  pub ordinal : ℕ
  pub name : Option (List ℕ)
  pub addr : ℕ
  pub object : Option Object

-- 0xFFFF stands for no 16:16 alias.
abbrev pub no_alias : ℕ
no_alias = 0xffff
