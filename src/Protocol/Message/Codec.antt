-- ===== src/Protocol/Message/Codec.antt =====
-- protocol/message.rs: payloads and their parsing. MessagePack (crate `rmp_serde`) is a parameter.
use rusp.Prelude.{
  ℕ, ◌+◌, ◌≡◌, Option, some, List, [], ◌∷◌, length, take, drop, ltb, ◌==◌, if◌then◌else◌, Result,
  ok, err, ok_or, ◌>>=◌, le_bytes, from_le,
}
use rusp.Error.{Error, malformed, protocol, lit, hex}
use rusp.Protocol.Frame.{FrameBuf, clear, push_u8, push_slice, claim}
use rusp.Protocol.Message.Kind
use rusp.Protocol.Message.{
  Hello, ControlMessage, Incoming, control, data_chunk, Handshake, hello, pake, confirm,
}

abbrev pub data_header_len : ℕ
data_header_len = 1 + 8

-- `rmp_serde::to_vec_named` and `rmp_serde::from_slice` at one type.
pub record Serde (A : Type 0) : Type 0 where
  pub to_vec_named : A → Option (List ℕ)
  pub from_slice : List ℕ → Option A

-- What is written is read back.
pub record RoundTrips {A : Type 0} (s : Serde A) : Type 0 where
  pub reads_back :
      (a : A) (bytes : List ℕ) → s.to_vec_named a ≡ some bytes → s.from_slice bytes ≡ some a

unfoldable pub encode_msgpack : {A : Type 0} → Serde A → A → Result Error (List ℕ)
encode_msgpack s a =
    ok_or (s.to_vec_named a) (protocol (malformed (lit "could not encode message" ∷ [])))

unfoldable pub decode_msgpack : {A : Type 0} → Serde A → List ℕ → Result Error A
decode_msgpack s bytes =
    ok_or (s.from_slice bytes) (protocol (malformed (lit "could not decode message" ∷ [])))

-- `buf.push_u8(kind); buf.push_slice(&bytes?)` on a buffer that has been cleared.
unfoldable pub push_kind : ℕ → Result Error (List ℕ) → FrameBuf → Result Error (Unit {0}) × FrameBuf
push_kind kind (ok bytes) b = (ok tt, push_slice (push_u8 (clear b) kind) bytes)
push_kind kind (err e) b = (err e, push_u8 (clear b) kind)

unfoldable pub encode_control :
    Serde ControlMessage → ControlMessage → FrameBuf → Result Error (Unit {0}) × FrameBuf
encode_control s msg b = push_kind Kind.control (encode_msgpack s msg) b

-- The claimed region begins at the second component.
unfoldable pub start_data : FrameBuf → ℕ → ℕ → FrameBuf × ℕ
start_data b offset n = claim (push_slice (push_u8 (clear b) Kind.file_data) (le_bytes 8 offset)) n

unfoldable pub decode_incoming : Serde ControlMessage → List ℕ → Result Error Incoming
decode_incoming s [] = err (protocol (malformed (lit "empty session frame" ∷ [])))
decode_incoming s (tag ∷ body) =
    if tag == Kind.control
    then (do msg ← decode_msgpack s body; ok (control msg))
    else if tag == Kind.file_data
    then (if ltb (length body) 8
        then err (protocol (malformed (lit "truncated data frame header" ∷ [])))
        else ok (data_chunk (from_le (take 8 body)) (drop 8 body)))
    else err (protocol (malformed (lit "unexpected session frame kind 0x" ∷ hex tag ∷ [])))

unfoldable pub encode : Serde Hello → Handshake → FrameBuf → Result Error (Unit {0}) × FrameBuf
encode s (hello h) b = push_kind Kind.hello (encode_msgpack s h) b
encode s (pake bytes) b = push_kind Kind.pake (ok bytes) b
encode s (confirm bytes) b = push_kind Kind.confirm (ok bytes) b

unfoldable pub decode : Serde Hello → List ℕ → Result Error Handshake
decode s [] = err (protocol (malformed (lit "empty handshake frame" ∷ [])))
decode s (tag ∷ body) =
    if tag == Kind.hello
    then (do h ← decode_msgpack s body; ok (hello h))
    else if tag == Kind.pake
    then ok (pake body)
    else if tag == Kind.confirm
    then ok (confirm body)
    else err (protocol (malformed (lit "unexpected handshake frame kind 0x" ∷ hex tag ∷ [])))
