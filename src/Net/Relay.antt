-- ===== src/Net/Relay.antt =====
-- net/relay.rs: the messages between a client and a relay. The texts are Rust `String`s;
-- MessagePack is a parameter.
pub mod Client
pub mod Greeting
use Prim.Native.String.{String}
use rusp.Prelude.{
  ℕ, Bool, true, false, Option, none, some, List, [], ◌∷◌, codes, text_eq, if◌then◌else◌, length,
  Result, ok, err, ok_or, map_err, ◌>>=◌, fail_if, Act, map,
}
use rusp.Error.{
  Error, Text, Message, IoError, protocol, network, io, cancelled, malformed, unexpected, bad_magic,
  lit, shown, relay_rejected, room_busy, relay_connect, timeout, ProtocolError,
}
use rusp.Code.{RoomId}
use rusp.Protocol.Frame.{FrameBuf, clear, push_slice}
use rusp.Protocol.Message.Codec.{Serde}
use rusp.Protocol.Stream.{Source, Sink, read_exact, write_all}

-- The octets of `b"RUSPRLY1"`.
abbrev pub relay_magic : List ℕ
relay_magic = codes "RUSPRLY1"

abbrev pub relay_max_frame : ℕ
relay_max_frame = 4096

abbrev pub max_token_len : ℕ
max_token_len = 256

pub record Join : Type 0 where
  pub room : Text
  pub token : Option Text

pub data RefusalReason : Type 0 where
  unauthorised busy overloaded bad_room : RefusalReason

pub data RelayReply : Type 0 where
  welcome : Text → RelayReply
  paired : RelayReply
  refused : RefusalReason → Text → RelayReply

unfoldable pub describe : RefusalReason → String
describe unauthorised = "this relay requires a token"
describe busy = "that room is already in use"
describe overloaded = "the relay is at capacity"
describe bad_room = "the relay rejected the room name"

unfoldable pub encode : {A : Type 0} → Serde A → A → FrameBuf → Result Error (Unit {0}) × FrameBuf
encode s value b = pushed (s.to_vec_named value)
  where
    pushed : Option (List ℕ) → Result Error (Unit {0}) × FrameBuf
    pushed (some bytes) = (ok tt, push_slice (clear b) bytes)
    pushed none = (err (protocol (malformed (lit "could not encode relay message" ∷ []))), clear b)

unfoldable pub decode : {A : Type 0} → Serde A → List ℕ → Result Error A
decode s bytes =
    ok_or (s.from_slice bytes) (protocol (malformed (lit "could not decode relay message" ∷ [])))

unfoldable pub refusal_message : RefusalReason → Text → Message
refusal_message reason [] = lit (describe reason) ∷ []
refusal_message reason (c ∷ detail) = lit (describe reason) ∷ lit ": " ∷ shown (c ∷ detail) ∷ []

unfoldable pub refusal : RefusalReason → Text → RoomId → Error
refusal busy detail room = network (room_busy room.as_str)
refusal reason detail room = network (relay_rejected (refusal_message reason detail))

unfoldable pub write_magic : Sink → Result Error (Unit {0}) × Sink
write_magic s =
    let (done, s') = write_all s relay_magic in (map_err (io (lit "greet the relay" ∷ [])) done, s')

unfoldable pub greeting_failure : IoError → Error
greeting_failure IoError.unexpected_eof = protocol ProtocolError.unexpected_eof
greeting_failure e = io (lit "read relay greeting" ∷ []) e

unfoldable pub check_magic : Result IoError (List ℕ) → Result Error (Unit {0})
check_magic (err e) = err (greeting_failure e)
check_magic (ok got) = if text_eq got relay_magic then ok tt else err (protocol bad_magic)

unfoldable pub read_magic : Source → Result Error (Unit {0}) × Source
read_magic s = let (got, s') = read_exact s (length relay_magic) in (check_magic got, s')

-- `decode` behind a read that may have failed.
unfoldable pub decode_read : {A : Type 0} → Serde A → Result Error (List ℕ) → Result Error A
decode_read s got = got >>= decode s

-- The buffer that a successful read has filled.
unfoldable pub filled : List ℕ → Result Error ℕ → Result Error (List ℕ)
filled buf got = got >>= λ _. ok buf
