-- ===== src/Transfer.antt =====
-- transfer/: the two halves of a transfer.
pub mod Progress
pub mod Sender
pub mod Receiver
