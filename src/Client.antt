-- ===== src/Client.antt =====
-- snc/core: the client.
pub mod Assoc
pub mod SocksUdp
pub mod Tests
