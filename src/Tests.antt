-- ===== src/Tests.antt =====
-- Concrete runs: instances of what the development takes from elsewhere, and each theorem applied.
mod Instances
mod Crypto
mod Wire
mod Delivery
mod Handshake
mod Paths
mod Reception
mod Relay
mod Codes
mod Sending
mod Scanning
mod Searching
