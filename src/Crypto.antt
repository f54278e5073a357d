-- ===== src/Crypto.antt =====
-- crypto/*.rs: record protection, key schedule and key confirmation.
pub mod Cipher
pub mod Keys
