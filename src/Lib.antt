-- ===== src/Lib.antt =====
-- 2ine_debugger: an emulator of OS/2 for Linux, with a debugger for the programs that it runs.
--
-- The loader (lx_loader.c) maps an OS/2 executable and keeps a table of LDT selectors, by which
-- 16-bit code reaches flat memory in tiles of 64 KB. The system libraries under native/ stand in for
-- those of OS/2; they call the loader to convert addresses. The debugger under debugger/ runs apart:
-- it traces the program, reads the selector table through shared memory, and reads the line tables
-- of the executable.
--
-- Files, and the code that they model:
--   Prelude     names that all files share; numbers of C with their wrap-around; masks, bit fields
--               and single bits as arithmetic; in Memory, how a routine ends, and loads and stores of bytes.
--   Selectors   lx_loader.c, lxSelectorToSegment to initOs2StackSegments. The state is the record
--               Loader: GLoaderState.ldt as a function from slots, and the modules' mappings. Each
--               operation is a function of the state; the kernel's answer to modify_ldt is the
--               parameter modify_ldt, and a failed assert is `none`.
--   Unpack      lx_loader.c, linearmove, decompressExePack2 and decompressIterated. Buffers are lists
--               of bytes; an access outside of one is a result of its own.
--   Lx          lx_loader.c. Exports: getModuleProcAddrByOrdinal, getModuleProcAddrByName and
--               loadLxNameTable. Fixup: doFixup and fixupPage, over these lookups; what a missing export
--               gets instead, a trampoline, is the parameter trampoline. The page lies at an address of
--               mapped memory, and deref reads a pointer there. Records has the bytes of a record,
--               Places and Sources what a target and a source mean, Targets and Page the records. NeFixup:
--               fixupNeSegment, over the selector table of Selectors. Sanity: sanityCheckModule.
--               Entries and NeEntries: how loadLxModule and loadNeModule make the exports out of the
--               entry tables. Pages: how loadLxModule unpacks the pages of an object into its
--               mapping, by the routines of Unpack.
--   Dwarf       debugger/dwarf_info.c. Bytes: the readers of words and LEB128 numbers. Program: the
--               two passes of parse_debug_line over one unit's program. Locate: find_elf_debug_ne
--               and find_elf_debug_lx. Aranges: parse_debug_aranges.
--               Lookup: dwarf_addr_to_line, dwarf_line_to_addr and dwarf_linear_to_line.
--   Ldt         debugger/ldt_access.c, the queries on the selector table.
--   Doscalls    native/doscalls.c. Wildcard: wildcardMatch. ExitList: DosExitList;
--               ExitRun: runDosExitList. Files: the table of
--               file handles, doDosOpen to DosSetMaxFH, over the record System of Unix calls. Environ:
--               DosScanEnv, calcEnvp, calcArgv. Tls: DosAllocThreadLocalMemory and
--               DosFreeThreadLocalMemory, over the three fields of LxLoaderState that they use, and in
--               Access the handler of lx_loader.c that carries out accesses to the slots. Sem:
--               DosSemRequest, DosSemWait, DosSemClear and DosSemSet; a thread's place in a call is
--               its Pc, and run_all runs a schedule of the turns of all threads.
-- A module of the form X.Runs holds the tests of X and the theorems at concrete inputs.
--
-- Bounds and fuel: the table has 8192 slots. Loops over a buffer have fuel for every byte of it,
-- and the theorems show that this is enough; the loops over a line program or a section take
-- their fuel as an argument, since some inputs are never left, and the theorems say how much is
-- enough; those over fixup records, name tables, entry tables and environment blocks have fuel
-- for one round more than there are entries. Pointers and sums of them are 32-bit, as in the
-- build of the source.
--
-- Not modelled: the rest of the parsers of LX and NE modules, which maps memory and loads other
-- modules, start-up and threads (inline assembly and system calls), the greater part of the OS/2
-- libraries (Dos16AllocHuge and the calls beside it, which map memory; glue to the file system, to pthreads, to terminals and to SDL), and the user
-- interface of the debugger (C++). Parts of the code that only print are left out of the
-- operations that contain them.
pub mod Doscalls
pub mod Dwarf
pub mod Ldt
pub mod Lx
pub mod Prelude
pub mod Selectors
pub mod Unpack
