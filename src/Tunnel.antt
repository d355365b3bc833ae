-- ===== src/Tunnel.antt =====
-- The messages between the clients (snc/core) and the exits (snc-exit) and controls (snc-control).
pub mod Frames
pub mod Datagrams
pub mod Reflect
pub mod Tests
