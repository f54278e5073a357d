-- ===== src/Protocol/Channel/Limits.antt =====
-- protocol/channel.rs: the frame limits, and what happens to a message that is over them.
use rusp.Prelude.{
  ℕ, ◌+◌, ◌-◌, ◌≤◌, ◌<◌, ◌^◌, ◌≡◌, refl, sym, ap, ◌∙◌, max, min, some, length, ok, err, lt→ltb,
  arith,
}
use rusp.Error.{frame_too_large, protocol}
use rusp.Protocol.Frame.{FrameBuf, payload, payload_len, min_max_frame}
use rusp.Protocol.Frame.Buffer.{IsFrame, finish_lem, length-payload}
use rusp.Protocol.Stream.{FrameWriter, restrict_reader, restrict_writer, write_buf, emit}
use rusp.Protocol.Message.{Capabilities, ControlMessage}
use rusp.Protocol.Message.Codec.{RoundTrips, data_header_len, encode_control}
use rusp.Protocol.Message.RoundTrip.{decode_incoming-encode_control}
use rusp.Protocol.Version.{min_chunk_size}
use rusp.Protocol.Externals.{Externals}
use rusp.Protocol.Channel.{
  Channel, max_data_len, apply_capabilities, clamp, chunk_size, send_frame, after_seal,
  after_encode, keep_out, send_control,
}
use rusp.Crypto.Cipher.{tag_len}
use rusp.Crypto.Cipher.Assumptions.{IsAead}
use rusp.Crypto.Cipher.Session.{open_frame-seal}

-- Whatever capabilities a peer announces, `chunk_size` does not panic behind `apply_capabilities`,
-- and a full chunk with its header and its tag is within the limits that both sides then have, when
-- both began with the same limits of at least 32 KiB.
pub chunk_size-apply_capabilities :
    (s r : Channel) (caps : Capabilities)
    → min_max_frame ≤ s.writer.max_frame
    → r.reader.max_frame ≡ s.writer.max_frame
    → let s' = apply_capabilities s caps in
      let r' = apply_capabilities r caps in
      (n : ℕ) × (chunk_size s' caps ≡ some n)
      × (min_chunk_size ≤ n)
      × (data_header_len + n + tag_len ≤ s'.writer.max_frame)
      × (data_header_len + n + tag_len ≤ r'.reader.max_frame)
unfolding chunk_size clamp apply_capabilities max_data_len restrict_reader restrict_writer
chunk_size-apply_capabilities s r caps enough same =
    let room =
      min s.writer.max_frame (max caps.max_frame min_max_frame) - (data_header_len + tag_len) in
    let n = max (min room (max min_chunk_size caps.chunk_size)) 1 in
    (n, ground arith, omega arith, omega arith, omega arith)

-- Limits only shrink, and never below 32 KiB.
pub apply_capabilities-bounds :
    (c : Channel) (caps : Capabilities)
    → let c' = apply_capabilities c caps in
      (c'.writer.max_frame ≤ c.writer.max_frame)
      × (c'.reader.max_frame ≤ c.reader.max_frame)
      × (min c.writer.max_frame min_max_frame ≤ c'.writer.max_frame)
      × (min c.reader.max_frame min_max_frame ≤ c'.reader.max_frame)
unfolding apply_capabilities restrict_reader restrict_writer
apply_capabilities-bounds c caps = (omega arith, omega arith, omega arith, omega arith)

write_buf_too_large :
    (w : FrameWriter) (b : FrameBuf)
    → IsFrame b
    → w.max_frame < payload_len b
    → ((write_buf w b).0 ≡ err (protocol (frame_too_large (payload_len b) w.max_frame)))
      × ((write_buf w b).1 ≡ w)
unfolding write_buf emit
write_buf_too_large w b v large =
    let refused = finish_lem b w.max_frame v in
    rw (refused, lt→ltb w.max_frame (payload_len b) large) (refl, refl)

-- A control message over the frame limit is refused and nothing of it is written, but the sealing
-- key has moved on: its counter is one ahead of the frames that went out.
pub send_control_too_large :
    (env : Externals) (s : Channel) (msg : ControlMessage) (n : ℕ)
    → IsAead env.aead
    → RoundTrips env.control_serde
    → IsFrame s.out_buf
    → (encode_control env.control_serde msg s.out_buf).0 ≡ ok tt
    → length (payload (encode_control env.control_serde msg s.out_buf).1) + tag_len ≡ n
    → s.writer.max_frame < n
    → n < 2 ^ 32
    → s.seal_key.counter + 1 < 2 ^ 64
    → ((send_control env s msg).0 ≡ err (protocol (frame_too_large n s.writer.max_frame)))
      × ((send_control env s msg).1.writer ≡ s.writer)
      × ((send_control env s msg).1.seal_key.counter ≡ s.seal_key.counter + 1)
unfolding send_control after_encode keep_out send_frame after_seal
send_control_too_large env s msg n law trips v encoded length_n large small more =
    let b = (encode_control env.control_serde msg s.out_buf).1 in
    let (v', _) = decode_incoming-encode_control env.control_serde msg s.out_buf trips v encoded in
    let (b', sealed, valid, size, _) =
      open_frame-seal env.aead s.seal_key b law v' (omega arith) more in
    let announced_n = length-payload b' valid in
    let (refused, kept) =
      write_buf_too_large s.writer b' valid (omega (arith, announced_n, size, large)) in
    let announced : payload_len b' ≡ n = sym announced_n ∙ size ∙ length_n in
    rw (encoded, sealed)
      (
        refused ∙ ap (λ k. err (protocol (frame_too_large k s.writer.max_frame))) announced,
        kept,
        refl,
      )
