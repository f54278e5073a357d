-- ===== src/Protocol/Message/Kind.antt =====
-- protocol/message.rs: the kind byte that opens a payload.
use rusp.Prelude.{ℕ}

abbrev pub hello : ℕ
hello = 0x01

abbrev pub pake : ℕ
pake = 0x02

abbrev pub confirm : ℕ
confirm = 0x03

abbrev pub control : ℕ
control = 0x10

abbrev pub file_data : ℕ
file_data = 0x11
