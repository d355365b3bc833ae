-- ===== src/Dht/Node.antt =====
-- dht/dht_node.go and dht/dht_content.go: the node.
pub mod State
pub mod Handlers
pub mod Active
pub mod Gossip
pub mod Index
pub mod Contacts
pub mod Suspects
pub mod Tests
