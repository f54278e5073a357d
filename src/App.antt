-- ===== src/App.antt =====
-- app.rs: which failed handshakes leave the code open for another try.
use rusp.Prelude.{Bool, true, false}
use rusp.Error.{Error, ProtocolError, protocol, io, bad_magic, incompatible_version, malformed}

unfoldable pub is_retryable_protocol : ProtocolError → Bool
is_retryable_protocol bad_magic = true
is_retryable_protocol ProtocolError.unexpected_eof = true
is_retryable_protocol (incompatible_version _ _ _ _) = true
is_retryable_protocol (malformed _) = true
is_retryable_protocol _ = false

unfoldable pub is_retryable : Error → Bool
is_retryable (protocol e) = is_retryable_protocol e
is_retryable (io _ _) = true
is_retryable _ = false
