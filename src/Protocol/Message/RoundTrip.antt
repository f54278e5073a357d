-- ===== src/Protocol/Message/RoundTrip.antt =====
-- protocol/message.rs: what was encoded is decoded.
use rusp.Prelude.{
  ℕ, ◌+◌, ◌^◌, ◌≤◌, ◌<◌, ◌≡◌, sym, ap, ◌∙◌, some, List, [], ◌∷◌, ◌++◌, length, ok, err, le_bytes,
  from_le-le_bytes, length-le_bytes, arith, le→not_ltb, Option-cases, inl, inr, take-append,
  drop-append, length-append,
}
use rusp.Error.{Message, malformed, protocol, lit, hex}
use rusp.Protocol.Frame.{
  FrameBuf, clear, payload, payload_len, push_u8, push_slice, claim, fill, set_payload_len,
}
use rusp.Protocol.Frame.Buffer.{
  IsFrame, push_u8-eq-push_slice, push_slice-IsFrame, payload-push_slice, clear-IsFrame,
  payload-clear, claim_filled, length-payload,
}
use rusp.Protocol.Message.{
  Hello, ControlMessage, control, data_chunk, Handshake, hello, pake, confirm,
}
use rusp.Protocol.Message.Codec.{
  Serde, RoundTrips, data_header_len, encode_msgpack, decode_msgpack, push_kind, encode_control,
  start_data, decode_incoming, encode, decode,
}

-- A cleared buffer with a kind byte and a body.
pub tagged-IsFrame :
    (b : FrameBuf) (kind : ℕ) (body : List ℕ)
    → IsFrame b
    → IsFrame (push_slice (push_u8 (clear b) kind) body)
tagged-IsFrame b kind body h =
    rw push_u8-eq-push_slice
      (push_slice-IsFrame _ body (push_slice-IsFrame (clear b) (kind ∷ []) (clear-IsFrame b h)))

pub payload_tagged :
    (b : FrameBuf) (kind : ℕ) (body : List ℕ)
    → IsFrame b
    → payload (push_slice (push_u8 (clear b) kind) body) ≡ kind ∷ body
payload_tagged b kind body h = rw (
  push_u8-eq-push_slice (clear b) kind,
  payload-push_slice _ body (push_slice-IsFrame (clear b) (kind ∷ []) (clear-IsFrame b h)),
  payload-push_slice (clear b) (kind ∷ []) (clear-IsFrame b h),
  payload-clear b,
)

-- A handshake message that was encoded is what the other side decodes.
pub decode-encode :
    (s : Serde Hello) (m : Handshake) (b : FrameBuf)
    → RoundTrips s
    → IsFrame b
    → (encode s m b).0 ≡ ok tt
    → IsFrame (encode s m b).1 × (decode s (payload (encode s m b).1) ≡ ok m)
unfolding encode decode push_kind encode_msgpack decode_msgpack
decode-encode s (hello h) b r v e = elim (Option-cases (s.to_vec_named h)) [
  | inl missing ↦ cc (missing)
  | inr (bytes, written) ↦
      rw written
        (tagged-IsFrame b 1 bytes v, rw (payload_tagged b 1 bytes v, r.reads_back h bytes written))
]
decode-encode s (pake bytes) b r v e = (tagged-IsFrame b 2 bytes v, rw (payload_tagged b 2 bytes v))
decode-encode s (confirm bytes) b r v e =
    (tagged-IsFrame b 3 bytes v, rw (payload_tagged b 3 bytes v))

-- A control message that was encoded is what the other side decodes.
pub decode_incoming-encode_control :
    (s : Serde ControlMessage) (m : ControlMessage) (b : FrameBuf)
    → RoundTrips s
    → IsFrame b
    → (encode_control s m b).0 ≡ ok tt
    → IsFrame (encode_control s m b).1
      × (decode_incoming s (payload (encode_control s m b).1) ≡ ok (control m))
unfolding encode_control decode_incoming push_kind encode_msgpack decode_msgpack
decode_incoming-encode_control s m b r v e = elim (Option-cases (s.to_vec_named m)) [
  | inl missing ↦ cc (missing)
  | inr (bytes, written) ↦ rw written (
    tagged-IsFrame b 0x10 bytes v,
    rw (payload_tagged b 0x10 bytes v, r.reads_back m bytes written),
  )
]

header_len :
    (b : FrameBuf) (offset : ℕ)
    → IsFrame b
    → payload_len (push_slice (push_u8 (clear b) 0x11) (le_bytes 8 offset)) ≡ data_header_len
header_len b offset v = omega (
  arith,
  length-payload _ (tagged-IsFrame b 0x11 (le_bytes 8 offset) v),
  ap length (payload_tagged b 0x11 (le_bytes 8 offset) v),
  length-le_bytes 8 offset,
)

decode_body :
    (s : Serde ControlMessage) (offset : ℕ) (bytes : List ℕ)
    → offset < 2 ^ 64
    → decode_incoming s (0x11 ∷ (le_bytes 8 offset ++ bytes)) ≡ ok (data_chunk offset bytes)
unfolding decode_incoming
decode_body s offset bytes small = rw (
  le→not_ltb (length (le_bytes 8 offset ++ bytes)) 8
      (omega (arith, length-append (le_bytes 8 offset) bytes, length-le_bytes 8 offset)),
  take-append 8 (le_bytes 8 offset) bytes (sym (length-le_bytes 8 offset)),
  drop-append 8 (le_bytes 8 offset) bytes (sym (length-le_bytes 8 offset)),
  from_le-le_bytes 8 offset small,
)

-- A staged data frame that was filled with no more than was claimed, and shrunk to what was filled,
-- is decoded to its offset and just those bytes, for every offset of 64 bits.
pub decode_incoming-start_data :
    (s : Serde ControlMessage) (b : FrameBuf) (offset n : ℕ) (bytes : List ℕ)
    → IsFrame b
    → offset < 2 ^ 64
    → length bytes ≤ n
    → let (staged, start) = start_data b offset n in
      (b' : FrameBuf) × (set_payload_len (fill staged start bytes) (data_header_len + length bytes)
        ≡ some b')
      × IsFrame b'
      × (decode_incoming s (payload b') ≡ ok (data_chunk offset bytes))
unfolding start_data decode_incoming
decode_incoming-start_data s b offset n bytes v small fits =
    let head = push_slice (push_u8 (clear b) 0x11) (le_bytes 8 offset) in
    let (b', made, v', held) = claim_filled head n bytes (tagged-IsFrame b 0x11 _ v) fits in
    (
      b',
      ap (λ k. set_payload_len (fill (claim head n).0 (claim head n).1 bytes) (k + length bytes))
            (sym (header_len b offset v))
          ∙ made,
      v',
      rw (held, payload_tagged b 0x11 (le_bytes 8 offset) v) (decode_body s offset bytes small),
    )

-- No payload is both a handshake message and a session message: what one parser accepts, the other
-- refuses.
pub decode_domains :
    (h : Serde Hello) (s : Serde ControlMessage) (bytes : List ℕ) (m : Handshake)
    → decode h bytes ≡ ok m
    → (e : Message) × (decode_incoming s bytes ≡ err (protocol (malformed e)))
unfolding decode decode_incoming decode_msgpack
decode_domains h s [] m e = cc
decode_domains h s (tag ∷ body) m e =
    (lit "unexpected session frame kind 0x" ∷ hex tag ∷ [], ground arith)
