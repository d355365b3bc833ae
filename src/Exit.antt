-- ===== src/Exit.antt =====
-- snc-exit: the exit node's tunnel sessions.
pub mod Session
pub mod Pool
pub mod Tests
