-- ===== src/Files.antt =====
-- files/: paths from a peer, and writing what was received.
pub mod Path
pub mod SafePath
pub mod Disk
pub mod Writer
pub mod Scan
