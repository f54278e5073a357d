-- ===== src/Transfer/Sender/Stream.antt =====
-- transfer/sender.rs: what the sender puts on a channel, as the messages that it carries.
use rusp.Prelude.{
  ◌≡◌, refl, sym, ap, subst, Option-cases, inl, inr, List, [], ◌∷◌, ◌++◌, Result, ok, err,
}
use rusp.Error.{Error}
use rusp.Protocol.Frame.{FrameBuf, payload}
use rusp.Protocol.Frame.Buffer.{IsFrame, finish-IsFrame}
use rusp.Protocol.Stream.{write_buf}
use rusp.Protocol.Message.{ControlMessage, Incoming, control}
use rusp.Protocol.Message.Codec.{RoundTrips, encode_control, decode_incoming}
use rusp.Protocol.Message.RoundTrip.{decode_incoming-encode_control}
use rusp.Protocol.Externals.{Externals}
use rusp.Protocol.Channel.{Channel, send_frame, send_control, after_seal, after_encode, keep_out}
use rusp.Crypto.Cipher.{nonce_for, checked_add_one, seal, sealed, advance_seal}
use rusp.Crypto.Cipher.Assumptions.{IsAead}
use rusp.Crypto.Cipher.Session.{sealed_buffer}

module _ (env : Externals) where
  -- A frame went out that decodes to the message; `c'` goes on behind it.
  abbrev pub Step : Channel → Incoming → Channel → Type 0
  Step c m c' =
      (b : FrameBuf) × IsFrame b
      × (decode_incoming env.control_serde (payload b) ≡ ok m)
      × ((send_frame env c b).0 ≡ ok tt)
      × (c'.writer ≡ (send_frame env c b).1.writer)
      × (c'.seal_key ≡ (send_frame env c b).1.seal_key)

  -- Just these messages went out, in this order.
  abbrev pub Sends : List Incoming → Channel → Channel → Type 0
  Sends [] c c' = c ≡ c'
  Sends (m ∷ ms) c c' = (d : Channel) × Step c m d × Sends ms d c'

  pub Sends-append :
      (ms ns : List Incoming) (c d e : Channel) → Sends ms c d → Sends ns d e → Sends (ms ++ ns) c e
  Sends-append [] ns c d e same h = subst (λ k. Sends ns k e) (sym same) h
  Sends-append (m ∷ ms) ns c d e (k, step, rest) h = (k, step, Sends-append ms ns k d e rest h)

  -- A frame that was sent leaves a buffer in order.
  pub send_frame-IsFrame :
      (c : Channel) (b : FrameBuf)
      → IsAead env.aead
      → IsFrame b
      → (send_frame env c b).0 ≡ ok tt
      → IsFrame (send_frame env c b).2
  unfolding send_frame after_seal seal sealed advance_seal write_buf
  send_frame-IsFrame c b law v sent =
      elim (Option-cases
        (env.aead.encrypt_detached c.seal_key.key (nonce_for c.seal_key.counter) (payload b))) [
          | inl failed ↦ cc (rw failed at sent)
          | inr ((text, tag), made) ↦ elim (Option-cases (checked_add_one c.seal_key.counter)) [
            | inl over ↦ cc (rw (made, over) at sent)
            | inr (next, more) ↦
                rw (made, more)
                  (finish-IsFrame _ c.writer.max_frame
                    (sealed_buffer b text tag v (
                      law.keeps_length c.seal_key.key (nonce_for c.seal_key.counter) (payload b)
                        text tag made)).0)
          ]
        ]

  after_encode-eq-ok :
      (c c' : Channel) (r : Result Error (Unit {0}) × FrameBuf)
      → after_encode env c r ≡ (ok tt, c')
      → (r.0 ≡ ok tt)
        × ((send_frame env c r.1).0 ≡ ok tt)
        × (record (send_frame env c r.1).1 { out_buf = (send_frame env c r.1).2 } ≡ c')
  unfolding after_encode keep_out
  after_encode-eq-ok c c' (err x, b) e = absurd (differ (ap (λ q. q.0) e))
    where
      differ : ◌≡◌ {A = Result Error (Unit {0})} (err x) (ok tt) → ⊥
      differ h = cc
  after_encode-eq-ok c c' (ok x, b) e = (refl, ap (λ q. q.0) e, ap (λ q. q.1) e)

  -- A control message that was sent is a step.
  pub send_control-Step :
      (c c' : Channel) (msg : ControlMessage)
      → IsAead env.aead
      → RoundTrips env.control_serde
      → IsFrame c.out_buf
      → send_control env c msg ≡ (ok tt, c')
      → Step c (control msg) c' × IsFrame c'.out_buf
  unfolding send_control
  send_control-Step c c' msg law trips v e =
      let r = encode_control env.control_serde msg c.out_buf in
      let (encoded, sent, same) = after_encode-eq-ok c c' r e in
      let (v', reads) =
        decode_incoming-encode_control env.control_serde msg c.out_buf trips v encoded in
      (
        (r.1, v', reads, sent, ap (λ k. k.writer) (sym same), ap (λ k. k.seal_key) (sym same)),
        subst IsFrame (ap (λ k. k.out_buf) same) (send_frame-IsFrame c r.1 law v' sent),
      )
