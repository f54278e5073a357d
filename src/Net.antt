-- ===== src/Net.antt =====
-- net/: how two peers reach each other.
pub mod Relay
pub mod Server
pub mod Discovery
pub mod Route
pub mod Dial
pub mod Rendezvous
