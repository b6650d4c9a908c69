-- ===== src/Kernel.antt =====
-- pset6: the kernel of WeensyOS.
pub mod Paging
pub mod Pages
pub mod Process
pub mod Checks
pub mod Exceptions
