-- ===== src/Shell.antt =====
-- pset4: the shell.
pub mod Token
pub mod Commands
pub mod Lists
pub mod Starting
pub mod Running
