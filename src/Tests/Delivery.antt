-- ===== src/Tests/Delivery.antt =====
-- protocol/channel.rs: concrete runs.
use rusp.Prelude.{
  ℕ, ◌+◌, ◌*◌, ◌≤◌, ◌≡◌, refl, false, none, some, List, [], ◌∷◌, ◌++◌, err, arith, replicate,
  be_bytes, le_bytes,
}
use rusp.Error.{protocol, frame_too_large}
use rusp.Protocol.Frame.{
  FrameBuf, payload, clear, push_slice, push_u8, ensure, write_at, claim, fill, set_payload_len,
  payload_len, payload_mut, finish,
}
use rusp.Protocol.Frame.Buffer.{IsFrame}
use rusp.Protocol.Stream.{write_buf, emit, write_all}
use rusp.Protocol.Message.{sender, keepalive, control, data_chunk, Capabilities}
use rusp.Protocol.Message.Codec.{
  encode_control, push_kind, encode_msgpack, start_data, data_header_len,
}
use rusp.Protocol.Version.{min_chunk_size}
use rusp.Protocol.Channel.{
  Channel, send_frame, after_seal, after_encode, keep_out, send_control, stage_data, finish_data,
  chunk_size, apply_capabilities,
}
use rusp.Protocol.Channel.Delivery.{Delivered, recv-send_control, recv-send_data}
use rusp.Protocol.Channel.Limits.{chunk_size-apply_capabilities, send_control_too_large}
use rusp.Crypto.Cipher.{seal, sealed, advance_seal, checked_add_one, tag_len}
use rusp.Tests.Instances.{plain-IsAead, keepalives-RoundTrips, outside}

abbrev buffer : FrameBuf
buffer = record { bytes = replicate 30 0; len = 4 }

buffer-IsFrame : IsFrame buffer
buffer-IsFrame = record { prefixed = omega arith; allocated = omega arith }

abbrev channel : ℕ → List ℕ → Channel
channel limit incoming = record {
  reader = record { inner = record { incoming = incoming; broken = none }; max_frame = 100 };
  writer = record {
    inner = record { sent = 3 ∷ []; room = 200 };
    max_frame = limit;
    scratch = buffer;
  };
  seal_key = record { key = []; counter = 0 };
  open_key = record { key = []; counter = 0; poisoned = false };
  version = 1;
  role = sender;
  peer_agent = [];
  in_buf = [];
  out_buf = buffer;
}

-- The frame of a keepalive under the AEAD of the tests, and a byte that follows it.
abbrev keepalive_wire : List ℕ
keepalive_wire = 0 ∷ 0 ∷ 0 ∷ 19 ∷ 0x10 ∷ 1 ∷ 2 ∷ replicate 16 0 ++ 42 ∷ []

recv-send_control_example :
    Delivered outside
      (channel 100 [])
      (channel 100 keepalive_wire)
      (control keepalive)
      (42 ∷ [])
      (send_control outside (channel 100 []) keepalive).0
      (send_control outside (channel 100 []) keepalive).1
unfolding encode_control push_kind encode_msgpack payload push_slice push_u8 clear ensure write_at
    send_control after_encode keep_out send_frame after_seal seal sealed advance_seal
    checked_add_one payload_mut write_buf emit finish payload_len write_all be_bytes le_bytes
recv-send_control_example =
    recv-send_control outside (channel 100 []) (channel 100 keepalive_wire) keepalive (42 ∷ [])
      plain-IsAead keepalives-RoundTrips buffer-IsFrame refl
      (record {
        to_write = omega arith;
        to_read = omega arith;
        in_prefix = omega arith;
        room = omega arith;
        nonces = omega arith;
      })
      refl refl

-- A chunk of two bytes that was staged in a claim of three.
abbrev data_wire : List ℕ
data_wire = 0 ∷ 0 ∷ 0 ∷ 27 ∷ 0x11 ∷ 5 ∷ replicate 7 0 ++ 7 ∷ 8 ∷ replicate 16 0

abbrev staged : FrameBuf
staged = record {
  bytes = 0 ∷ 0 ∷ 0 ∷ 0 ∷ 0x11 ∷ 5 ∷ replicate 7 0 ++ 7 ∷ 8 ∷ replicate 15 0;
  len = 15;
}

recv-send_data_example :
    Delivered outside
      (channel 100 [])
      (channel 100 data_wire)
      (data_chunk 5 (7 ∷ 8 ∷ []))
      []
      (send_frame outside (channel 100 []) staged).0
      (send_frame outside (channel 100 []) staged).1
unfolding stage_data start_data claim fill finish_data set_payload_len payload push_slice push_u8
    clear ensure write_at send_frame after_seal seal sealed advance_seal checked_add_one payload_mut
    write_buf emit finish payload_len write_all be_bytes le_bytes
recv-send_data_example =
    recv-send_data outside (channel 100 []) (channel 100 data_wire) buffer staged 5 3 (7 ∷ 8 ∷ [])
      [] plain-IsAead buffer-IsFrame (omega arith) (omega arith) refl
      (record {
        to_write = omega arith;
        to_read = omega arith;
        in_prefix = omega arith;
        room = omega arith;
        nonces = omega arith;
      })
      refl refl

-- Capabilities of a peer that asks for nothing.
abbrev least : Capabilities
least = record { max_frame = 0; chunk_size = 0; features = [] }

abbrev big : Channel
big = record (channel (1024 * 1024) []) {
  reader = record { inner = record { incoming = []; broken = none }; max_frame = 1024 * 1024 };
}

chunk_size-apply_capabilities_example :
    (n : ℕ) × (chunk_size (apply_capabilities big least) least ≡ some n)
    × (min_chunk_size ≤ n)
    × (data_header_len + n + tag_len ≤ (apply_capabilities big least).writer.max_frame)
    × (data_header_len + n + tag_len ≤ (apply_capabilities big least).reader.max_frame)
chunk_size-apply_capabilities_example =
    chunk_size-apply_capabilities big big least (omega arith) refl

-- A limit of 18 bytes has no room for the 19 of a keepalive.
send_control_too_large_example :
    ((send_control outside (channel 18 []) keepalive).0 ≡ err (protocol (frame_too_large 19 18)))
    × ((send_control outside (channel 18 []) keepalive).1.writer ≡ (channel 18 []).writer)
    × ((send_control outside (channel 18 []) keepalive).1.seal_key.counter ≡ 1)
unfolding encode_control push_kind encode_msgpack payload push_slice push_u8 clear ensure write_at
send_control_too_large_example =
    send_control_too_large outside (channel 18 []) keepalive 19 plain-IsAead keepalives-RoundTrips
      buffer-IsFrame refl refl (omega arith) (omega arith) (omega arith)
