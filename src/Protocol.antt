-- ===== src/Protocol.antt =====
-- protocol/*.rs: framing, messages, and the secure channel.
pub mod Frame
pub mod Stream
pub mod Message
pub mod Version
pub mod Externals
pub mod Channel
pub mod Handshake
