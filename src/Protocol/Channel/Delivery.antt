-- ===== src/Protocol/Channel/Delivery.antt =====
-- protocol/channel.rs: what is sent on one side is received on the other.
use rusp.Prelude.{
  ℕ, ◌+◌, ◌≤◌, ◌<◌, ◌^◌, ◌≡◌, refl, sym, ap, ◌∙◌, subst, false, some, List, ◌++◌, length, drop,
  drop-append, length-append, length-be_bytes, be_bytes, Result, ok, arith,
}
use rusp.Error.{Error}
use rusp.Protocol.Frame.{FrameBuf, payload, len_prefix, fill}
use rusp.Protocol.Frame.Buffer.{IsFrame}
use rusp.Protocol.Stream.Frames.{frame_of, read_frame-frame_of, write_buf_lem}
use rusp.Protocol.Message.{ControlMessage, Incoming, control, data_chunk}
use rusp.Protocol.Message.Codec.{RoundTrips, encode_control, decode_incoming}
use rusp.Protocol.Message.RoundTrip.{decode_incoming-encode_control, decode_incoming-start_data}
use rusp.Protocol.Externals.{Externals}
use rusp.Protocol.Channel.{
  Channel, send_frame, after_seal, after_encode, keep_out, send_control, after_open, after_read,
  map_some, recv, stage_data, finish_data,
}
use rusp.Crypto.Cipher.{SealingKey, OpeningKey, tag_len, open_frame}
use rusp.Crypto.Cipher.Assumptions.{IsAead}
use rusp.Crypto.Cipher.Session.{open_frame-seal}

-- The receiver opens with the key that the sender seals with, and has opened as many frames as the
-- sender has sealed.
abbrev pub InStep : SealingKey → OpeningKey → Type 0
InStep s o = o ≡ record { key = s.key; counter = s.counter; poisoned = false }

-- A payload of this length can go from one channel to the other: both frame limits allow it with its
-- tag, the connection takes it, and the counter has not run out.
pub record Fits (s r : Channel) (n : ℕ) : Type 0 where
  pub to_write : n + tag_len ≤ s.writer.max_frame
  pub to_read : n + tag_len ≤ r.reader.max_frame
  pub in_prefix : n + tag_len < 2 ^ 32
  pub room : len_prefix + (n + tag_len) ≤ s.writer.inner.room
  pub nonces : s.seal_key.counter + 1 < 2 ^ 64

-- What a channel has written since an earlier state of it.
abbrev pub written_since : Channel → Channel → List ℕ
written_since before after = drop (length before.writer.inner.sent) after.writer.inner.sent

-- The frame goes out under the next nonce, and the text can be opened again.
abbrev Sent : Externals → Channel → FrameBuf → Result Error (Unit {0}) × Channel × FrameBuf → Type 0
Sent env s b r =
    (p : List ℕ) × (r.0 ≡ ok tt)
    × (r.1.writer.inner.sent ≡ s.writer.inner.sent ++ frame_of p)
    × (length p ≡ length (payload b) + tag_len)
    × (r.1.seal_key ≡ record s.seal_key { counter = s.seal_key.counter + 1 })
    × (open_frame env.aead
          (record { key = s.seal_key.key; counter = s.seal_key.counter; poisoned = false }) p
        ≡ (
          ok tt,
          record { key = s.seal_key.key; counter = s.seal_key.counter + 1; poisoned = false },
          payload b,
        ))

pub length-frame_of : (p : List ℕ) → length (frame_of p) ≡ len_prefix + length p
unfolding frame_of
length-frame_of p =
    length-append (be_bytes 4 (length p)) p ∙ ap (λ n. n + length p) (length-be_bytes 4 (length p))

module _ (env : Externals) (s r : Channel) where
  send_frame-Sent :
      (b : FrameBuf)
      → IsAead env.aead
      → IsFrame b
      → Fits s r (length (payload b))
      → Sent env s b (send_frame env s b)
  unfolding send_frame after_seal
  send_frame-Sent b law v fits =
      let (b', sealed, v', size, opens) =
        open_frame-seal env.aead s.seal_key b law v (omega (arith, fits.in_prefix)) fits.nonces in
      let (done, kept, _) =
        write_buf_lem s.writer b' v' (omega (arith, size, fits.to_write))
          (omega (arith, size, fits.in_prefix))
          (omega (arith, size, fits.room, length-frame_of (payload b'))) in
      (payload b', rw sealed done, rw sealed (ap (λ k. k.sent) kept), size, rw sealed, opens)

  recv_lem :
      (p text rest : List ℕ) (k : OpeningKey) (m : Incoming)
      → r.reader.inner.incoming ≡ frame_of p ++ rest
      → length p ≤ r.reader.max_frame
      → length p < 2 ^ 32
      → open_frame env.aead r.open_key p ≡ (ok tt, k, text)
      → decode_incoming env.control_serde text ≡ ok m
      → recv env r ≡ (
        ok (some m),
        record r {
          reader = record r.reader { inner = record r.reader.inner { incoming = rest } };
          open_key = k;
          in_buf = text;
        },
      )
  unfolding recv after_read after_open map_some
  recv_lem p text rest k m e fits small opens reads =
      rw (read_frame-frame_of r.reader r.in_buf p rest e fits small, opens, reads)

  -- What holds behind a call that sent something and the `recv` of the other side: the call was
  -- reported as a success, just the message is received, the keys are in step again, and what
  -- follows on the connection is untouched.
  abbrev pub Delivered : Incoming → List ℕ → Result Error (Unit {0}) → Channel → Type 0
  Delivered m rest done s' =
      (done ≡ ok tt)
      × ((recv env r).0 ≡ ok (some m))
      × InStep s'.seal_key (recv env r).1.open_key
      × ((recv env r).1.reader.inner.incoming ≡ rest)

  -- For every frame whose payload decodes.
  recv-send_frame :
      (b : FrameBuf) (m : Incoming) (rest : List ℕ)
      → IsAead env.aead
      → IsFrame b
      → Fits s r (length (payload b))
      → InStep s.seal_key r.open_key
      → decode_incoming env.control_serde (payload b) ≡ ok m
      → r.reader.inner.incoming ≡ written_since s (send_frame env s b).1 ++ rest
      → Delivered m rest (send_frame env s b).0 (send_frame env s b).1
  recv-send_frame b m rest law v fits step reads arrives =
      let (p, done, sent, size, next, opens) = send_frame-Sent b law v fits in
      let gone : written_since s (send_frame env s b).1 ≡ frame_of p =
        ap (drop (length s.writer.inner.sent)) sent
        ∙ drop-append (length s.writer.inner.sent) s.writer.inner.sent (frame_of p) refl in
      let got =
        recv_lem p (payload b) rest
          (record { key = s.seal_key.key; counter = s.seal_key.counter + 1; poisoned = false }) m
          (arrives ∙ ap (λ w. w ++ rest) gone) (omega (arith, size, fits.to_read))
          (omega (arith, size, fits.in_prefix)) (ap (λ k. open_frame env.aead k p) step ∙ opens)
          reads in
      (done, rw got, rw (got, next), rw got)

  -- A control message that was sent is received as it was: with a correct AEAD and serializer, keys
  -- in step, room on the connection and a message within both frame limits.
  pub recv-send_control :
      (msg : ControlMessage) (rest : List ℕ)
      → IsAead env.aead
      → RoundTrips env.control_serde
      → IsFrame s.out_buf
      → (encode_control env.control_serde msg s.out_buf).0 ≡ ok tt
      → Fits s r (length (payload (encode_control env.control_serde msg s.out_buf).1))
      → InStep s.seal_key r.open_key
      → r.reader.inner.incoming ≡ written_since s (send_control env s msg).1 ++ rest
      → Delivered (control msg) rest (send_control env s msg).0 (send_control env s msg).1
  unfolding send_control after_encode keep_out
  recv-send_control msg rest law trips v encoded fits step arrives =
      let (v', reads) =
        decode_incoming-encode_control env.control_serde msg s.out_buf trips v encoded in
      rw encoded (
        recv-send_frame (encode_control env.control_serde msg s.out_buf).1 (control msg) rest law v'
          fits step reads (rw encoded at arrives))

  -- A chunk of file data that was staged in any buffer, filled in part or in full, finished and sent
  -- is received with its offset and just the bytes that were filled in.
  pub recv-send_data :
      (b sealed : FrameBuf) (offset n : ℕ) (bytes rest : List ℕ)
      → IsAead env.aead
      → IsFrame b
      → offset < 2 ^ 64
      → length bytes ≤ n
      → finish_data (fill (stage_data b offset n).0 (stage_data b offset n).1 bytes) (length bytes)
        ≡ some sealed
      → Fits s r (length (payload sealed))
      → InStep s.seal_key r.open_key
      → r.reader.inner.incoming ≡ written_since s (send_frame env s sealed).1 ++ rest
      → Delivered
          (data_chunk offset bytes)
          rest
          (send_frame env s sealed).0
          (send_frame env s sealed).1
  unfolding stage_data finish_data
  recv-send_data b sealed offset n bytes rest law v small filled made fits step arrives =
      let (b', made', v', reads) =
        decode_incoming-start_data env.control_serde b offset n bytes v small filled in
      let same : b' ≡ sealed = cc (made, made') in
      recv-send_frame sealed (data_chunk offset bytes) rest law (subst IsFrame same v') fits step
        (ap (λ k. decode_incoming env.control_serde (payload k)) (sym same) ∙ reads) arrives
