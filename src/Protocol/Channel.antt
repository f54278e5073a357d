-- ===== src/Protocol/Channel.antt =====
-- protocol/channel.rs: the encrypted message channel, once it is established.
pub mod Delivery
pub mod Limits
pub mod Progress
use Prim.Native.String.{String}
use rusp.Prelude.{
  ℕ, ◌+◌, ◌-◌, ◌*◌, max, min, Bool, Option, none, some, List, ltb, leb, if◌then◌else◌, Result, ok,
  err, map_err, ◌>>=◌, ok_or,
}
use rusp.Error.{Error, ProtocolError, CryptoError, Text, protocol, crypto, unexpected}
use rusp.Protocol.Frame.{FrameBuf, min_max_frame, set_payload_len}
use rusp.Protocol.Stream.{
  FrameReader, FrameWriter, read_frame, write_buf, restrict_reader, restrict_writer,
}
use rusp.Protocol.Message.{
  Role, Capabilities, ControlMessage, Incoming, control, data_chunk, FailureCode, failure,
}
use rusp.Protocol.Message.Codec.{data_header_len, encode_control, decode_incoming, start_data}
use rusp.Protocol.Version.{min_chunk_size}
use rusp.Protocol.Externals.{Externals}
use rusp.Crypto.Cipher.{SealingKey, OpeningKey, tag_len, seal, open_frame}

pub record Channel : Type 0 where
  pub reader : FrameReader
  pub writer : FrameWriter
  pub seal_key : SealingKey
  pub open_key : OpeningKey
  pub version : ℕ
  pub role : Role
  pub peer_agent : Text
  pub in_buf : List ℕ
  pub out_buf : FrameBuf

-- saturating_sub
unfoldable pub max_data_len : Channel → ℕ
max_data_len c = c.writer.max_frame - (data_header_len + tag_len)

unfoldable pub apply_capabilities : Channel → Capabilities → Channel
apply_capabilities c caps =
    let limit = max caps.max_frame min_max_frame in
    record c { reader = restrict_reader c.reader limit; writer = restrict_writer c.writer limit }

-- `Ord::clamp`; `none` is its panic on an empty range.
unfoldable pub clamp : ℕ → ℕ → ℕ → Option ℕ
clamp x lo hi = if ltb hi lo then none else some (min hi (max lo x))

unfoldable pub chunk_size : Channel → Capabilities → Option ℕ
chunk_size c caps = elim (clamp caps.chunk_size min_chunk_size (max_data_len c)) [
  | none ↦ none
  | some n ↦ some (max n 1)
]

-- Prepare a frame for file data; the region to fill begins at the second component.
unfoldable pub stage_data : FrameBuf → ℕ → ℕ → FrameBuf × ℕ
stage_data b offset n = start_data b offset n

-- `none` is the panic of `set_payload_len`.
unfoldable pub finish_data : FrameBuf → ℕ → Option FrameBuf
finish_data b filled = set_payload_len b (data_header_len + filled)

-- `.map(Some)`
unfoldable pub map_some : Result Error Incoming → Result Error (Option Incoming)
map_some (ok m) = ok (some m)
map_some (err e) = err e

-- `write_buf` behind a successful `seal`.
unfoldable pub after_seal :
    Channel
    → Result CryptoError (Unit {0}) × SealingKey × FrameBuf
    → Result Error (Unit {0}) × Channel × FrameBuf
after_seal c (err e, k, b) = (err (crypto e), record c { seal_key = k }, b)
after_seal c (ok _, k, b) =
    let (done, w, b') = write_buf c.writer b in (done, record c { seal_key = k; writer = w }, b')

module _ (env : Externals) where
  open env use {aead, control_serde, display}

  -- The result, the channel and the caller's buffer.
  unfoldable pub send_frame : Channel → FrameBuf → Result Error (Unit {0}) × Channel × FrameBuf
  send_frame c b = after_seal c (seal aead c.seal_key b)

  unfoldable pub keep_out :
      Result Error (Unit {0}) × Channel × FrameBuf → Result Error (Unit {0}) × Channel
  keep_out (done, c, b) = (done, record c { out_buf = b })

  unfoldable pub after_encode :
      Channel → Result Error (Unit {0}) × FrameBuf → Result Error (Unit {0}) × Channel
  after_encode c (err e, b) = (err e, record c { out_buf = b })
  after_encode c (ok _, b) = keep_out (send_frame c b)

  unfoldable pub send_control : Channel → ControlMessage → Result Error (Unit {0}) × Channel
  send_control c msg = after_encode c (encode_control control_serde msg c.out_buf)

  -- The result is dropped.
  unfoldable pub send_failure : Channel → FailureCode → Error → Channel
  send_failure c code e = (send_control c (failure code (display e))).1

  unfoldable pub after_open :
      Channel
      → Result CryptoError (Unit {0}) × OpeningKey × List ℕ
      → Result Error (Option Incoming) × Channel
  after_open c (err e, k, buf) = (err (crypto e), record c { open_key = k; in_buf = buf })
  after_open c (ok _, k, buf) =
      (map_some (decode_incoming control_serde buf), record c { open_key = k; in_buf = buf })

  unfoldable pub after_read :
      Channel
      → Result Error (Option ℕ) × FrameReader × List ℕ
      → Result Error (Option Incoming) × Channel
  after_read c (err e, r, buf) = (err e, record c { reader = r; in_buf = buf })
  after_read c (ok none, r, buf) = (ok none, record c { reader = r; in_buf = buf })
  after_read c (ok (some n), r, buf) =
      after_open (record c { reader = r; in_buf = buf }) (open_frame aead c.open_key buf)

  unfoldable pub recv : Channel → Result Error (Option Incoming) × Channel
  recv c = after_read c (read_frame c.reader c.in_buf)

  unfoldable pub required : Result Error (Option Incoming) → Result Error Incoming
  required (ok (some m)) = ok m
  required (ok none) = err (protocol ProtocolError.unexpected_eof)
  required (err e) = err e

  unfoldable pub recv_required : Channel → Result Error Incoming × Channel
  recv_required c = let (got, c') = recv c in (required got, c')

  unfoldable pub only_control : Result Error Incoming → Result Error ControlMessage
  only_control (ok (control msg)) = ok msg
  only_control (ok (data_chunk _ _)) = err (protocol (unexpected "data" "a control message"))
  only_control (err e) = err e

  unfoldable pub recv_control : Channel → Result Error ControlMessage × Channel
  recv_control c = let (got, c') = recv_required c in (only_control got, c')
