-- ===== src/Control.antt =====
-- snc-control: the control server.
pub mod Health
pub mod Exits
pub mod Reflector
pub mod AuthCache
pub mod Tests
