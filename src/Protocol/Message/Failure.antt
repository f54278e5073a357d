-- ===== src/Protocol/Message/Failure.antt =====
-- protocol/message.rs: the constants of `FailureCode`.
use rusp.Prelude.{ℕ}

abbrev pub internal : ℕ
internal = 1

abbrev pub bad_message : ℕ
bad_message = 2

abbrev pub integrity : ℕ
integrity = 3

abbrev pub io : ℕ
io = 4

abbrev pub refused : ℕ
refused = 5

abbrev pub unsupported : ℕ
unsupported = 6
