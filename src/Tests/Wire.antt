-- ===== src/Tests/Wire.antt =====
-- protocol/frame.rs, protocol/message.rs and protocol/mod.rs: concrete runs.
use rusp.Prelude.{
  ℕ, ◌≡◌, ◌↔◌, min, refl, none, some, List, [], ◌∷◌, ok, err, arith, be_bytes, le_bytes,
}
use rusp.Error.{protocol, malformed, Message}
use rusp.Protocol.Frame.{FrameBuf, payload}
use rusp.Protocol.Frame.Buffer.{IsFrame}
use rusp.Protocol.Stream.{FrameReader, read_frame}
use rusp.Protocol.Stream.Frames.{frame_of, read_frame-frame_of, read_frame_short_header}
use rusp.Protocol.Message.{sender, Hello, pake}
use rusp.Protocol.Message.Codec.{push_kind, encode, decode, decode_incoming}
use rusp.Protocol.Message.RoundTrip.{decode-encode, decode_domains}
use rusp.Protocol.Version.{negotiate_version}
use rusp.Protocol.Version.Negotiation.{Speaks, negotiate_version-highest}
use rusp.Tests.Instances.{no_hellos, no_hellos-RoundTrips, keepalives}

abbrev buffer : FrameBuf
buffer = record { bytes = 0 ∷ 0 ∷ 0 ∷ 0 ∷ 1 ∷ 2 ∷ 3 ∷ []; len = 7 }

buffer-IsFrame : IsFrame buffer
buffer-IsFrame = record { prefixed = omega arith; allocated = omega arith }

abbrev reader : List ℕ → FrameReader
reader bytes = record { inner = record { incoming = bytes; broken = none }; max_frame = 10 }

read_frame-frame_of_example :
    read_frame (reader (0 ∷ 0 ∷ 0 ∷ 2 ∷ 7 ∷ 8 ∷ 9 ∷ [])) []
    ≡ (ok (some 2), reader (9 ∷ []), 7 ∷ 8 ∷ [])
unfolding frame_of be_bytes le_bytes
read_frame-frame_of_example =
    read_frame-frame_of (reader (0 ∷ 0 ∷ 0 ∷ 2 ∷ 7 ∷ 8 ∷ 9 ∷ [])) [] (7 ∷ 8 ∷ []) (9 ∷ []) refl
      (omega arith) (omega arith)

read_frame_short_header_example : (read_frame (reader (0 ∷ 0 ∷ [])) []).0 ≡ ok none
read_frame_short_header_example =
    read_frame_short_header (reader (0 ∷ 0 ∷ [])) [] (omega arith) refl

decode-encode_example :
    IsFrame (encode no_hellos (pake (4 ∷ 5 ∷ [])) buffer).1
    × (decode no_hellos (payload (encode no_hellos (pake (4 ∷ 5 ∷ [])) buffer).1)
        ≡ ok (pake (4 ∷ 5 ∷ [])))
unfolding encode push_kind
decode-encode_example =
    decode-encode no_hellos (pake (4 ∷ 5 ∷ [])) buffer no_hellos-RoundTrips buffer-IsFrame refl

decode_domains_example :
    (e : Message) × (decode_incoming keepalives (2 ∷ 4 ∷ []) ≡ err (protocol (malformed e)))
unfolding decode
decode_domains_example = decode_domains no_hellos keepalives (2 ∷ 4 ∷ []) (pake (4 ∷ [])) refl

abbrev newer : Hello
newer = record { min_version = 1; max_version = 4; role = sender; agent = [] }

negotiate_version-highest_example :
    (negotiate_version newer ≡ ok 1) ↔ (Speaks newer 1 × (1 ≡ min 1 4))
negotiate_version-highest_example = negotiate_version-highest newer 1
