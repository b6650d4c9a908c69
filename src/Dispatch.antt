-- ===== src/Dispatch.antt =====
-- pset5/dispatch: the request queue, and the threads that share it.
pub mod Queue
pub mod World
