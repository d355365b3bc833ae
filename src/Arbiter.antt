-- ===== src/Arbiter.antt =====
-- snc-arbiter: the limits on requests, and the address that they are counted under.
pub mod Bucket
pub mod Cooldown
pub mod Tiered
pub mod ClientIp
pub mod Tests
