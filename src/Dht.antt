-- ===== src/Dht.antt =====
-- dht: the Kademlia-like table of relays that clients and controls share.
pub mod Id
pub mod Table
pub mod Relays
pub mod Wire
pub mod Node
pub mod Tests
