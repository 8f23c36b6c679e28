-- ===== src/Doscalls.antt =====
-- native/doscalls.c: parts of the OS/2 kernel interface.
pub mod Errors
pub mod Wildcard
pub mod Environ
pub mod ExitList
pub mod ExitRun
pub mod Files
pub mod Tls
pub mod Sem
mod Runs
