-- ===== src/Dwarf.antt =====
-- debugger/dwarf_info.c: the reader of DWARF line tables.
pub mod Bytes
pub mod Program
pub mod Lookup
pub mod Aranges
pub mod Locate
