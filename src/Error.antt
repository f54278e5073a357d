-- ===== src/Error.antt =====
-- error.rs: one error type for each layer, and the top-level `Error` that wraps them. A message
-- that is put together by `format!` is the list of its pieces, in order.
use Prim.Native.String.{String}
use rusp.Prelude.{ℕ, List, Option, Result, map_err, Bool, true, false}

-- The characters of a Rust `String`, as code points.
abbrev pub Text : Type 0
Text = List ℕ

pub data Piece : Type 0 where
  lit : String → Piece
  shown : Text → Piece
  number : ℕ → Piece
  hex : ℕ → Piece

abbrev pub Message : Type 0
Message = List Piece

pub data CodeError : Type 0 where
  empty : CodeError
  missing_secret : CodeError
  invalid_room : Text → CodeError
  secret_too_short : ℕ → CodeError
  too_few_words : ℕ → ℕ → CodeError
  too_many_words : ℕ → CodeError
  random : Text → CodeError

pub data ProtocolError : Type 0 where
  incompatible_version : ℕ → ℕ → ℕ → ℕ → ProtocolError
  frame_too_large : ℕ → ℕ → ProtocolError
  unexpected_eof : ProtocolError
  malformed : Message → ProtocolError
  unexpected : String → String → ProtocolError
  peer : Message → ProtocolError
  bad_magic : ProtocolError

pub data CryptoError : Type 0 where
  key_mismatch pake decrypt nonce_exhausted kdf : CryptoError

pub data TransferError : Type 0 where
  integrity : Text → Message → Message → TransferError
  declined : Option Text → TransferError
  unsafe_path : Message → TransferError
  exists : Text → TransferError
  empty : TransferError
  size_mismatch : Text → ℕ → ℕ → TransferError
  bad_manifest : Message → TransferError

-- std::io::ErrorKind, as far as the code looks at it.
pub data IoError : Type 0 where
  unexpected_eof not_found already_exists other : IoError

-- A duration is its milliseconds; the socket error behind a failure is its kind.
pub data NetworkError : Type 0 where
  relay_connect : Text → IoError → NetworkError
  no_route : NetworkError
  timeout : ℕ → NetworkError
  relay_rejected : Message → NetworkError
  room_busy : Text → NetworkError
  bind : Text → IoError → NetworkError
  unresolvable : Text → NetworkError

pub data Error : Type 0 where
  code : CodeError → Error
  config : Message → Error
  protocol : ProtocolError → Error
  crypto : CryptoError → Error
  network : NetworkError → Error
  transfer : TransferError → Error
  io : Message → IoError → Error
  cancelled : Error

-- Error::is_cancelled
unfoldable pub is_cancelled : Error → Bool
is_cancelled cancelled = true
is_cancelled _ = false

-- `?` at a layer's own error type, through `From`.
abbrev pub from_protocol {ℓ} : {A : Type ℓ} → Result ProtocolError A → Result Error A
from_protocol = map_err protocol

abbrev pub from_crypto {ℓ} : {A : Type ℓ} → Result CryptoError A → Result Error A
from_crypto = map_err crypto

abbrev pub from_transfer {ℓ} : {A : Type ℓ} → Result TransferError A → Result Error A
from_transfer = map_err transfer
