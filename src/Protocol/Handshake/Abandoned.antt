-- ===== src/Protocol/Handshake/Abandoned.antt =====
-- protocol/channel.rs and app.rs: a peer that hangs up once it has our confirmation tag.
use rusp.Prelude.{
  ℕ, ◌+◌, ◌≤◌, ◌<◌, ◌^◌, ◌≡◌, refl, ap, ◌∙◌, true, none, List, [], ◌∷◌, ◌++◌, length, ok, err,
  arith,
}
use rusp.Prelude.Steps.{continue_ok, continue_err}
use rusp.Error.{ProtocolError, protocol}
use rusp.App.{is_retryable, is_retryable_protocol}
use rusp.Protocol.Frame.Buffer.{IsFrame}
use rusp.Protocol.Stream.{read_frame_required, required}
use rusp.Protocol.Stream.Frames.{frame_of, read_frame_short_header, write_buf_lem}
use rusp.Protocol.Message.{confirm}
use rusp.Protocol.Message.Codec.{encode, push_kind}
use rusp.Protocol.Message.RoundTrip.{payload_tagged, tagged-IsFrame}
use rusp.Protocol.Externals.{Externals}
use rusp.Protocol.Handshake.{Link, Agreement, giving, hear, say, after_encode, confirm_keys}
use rusp.Crypto.Keys.{confirm_tag}

-- A frame with a tag can be written.
pub record Writable (l : Link) (tag : List ℕ) : Type 0 where
  pub valid : IsFrame l.out
  pub fits : 1 + length tag ≤ l.writer.max_frame
  pub in_prefix : 1 + length tag < 2 ^ 32
  pub room : length (frame_of (3 ∷ tag)) ≤ l.writer.inner.room

module _ (env : Externals) where
  say-confirm :
      (l : Link) (tag : List ℕ)
      → Writable l tag
      → ((say env (confirm tag) l).0 ≡ ok (3 ∷ tag))
        × ((say env (confirm tag) l).1.writer.inner.sent
            ≡ l.writer.inner.sent ++ frame_of (3 ∷ tag))
        × ((say env (confirm tag) l).1.reader ≡ l.reader)
  unfolding say after_encode encode push_kind giving
  say-confirm l tag h =
      let held = payload_tagged l.out 3 tag h.valid in
      let (done, kept, _) =
        write_buf_lem l.writer _ (tagged-IsFrame l.out 3 tag h.valid)
          (omega (arith, ap length held, h.fits)) (omega (arith, ap length held, h.in_prefix))
          (omega (arith, ap (λ p. length (frame_of p)) held, h.room)) in
      (
        rw done (ap ok held),
        ap (λ k. k.sent) kept ∙ ap (λ p. l.writer.inner.sent ++ frame_of p) held,
        refl,
      )

  hear_closed :
      (l : Link)
      → l.reader.inner.incoming ≡ []
      → l.reader.inner.broken ≡ none
      → (hear l).0 ≡ err (protocol ProtocolError.unexpected_eof)
  unfolding hear read_frame_required required giving
  hear_closed l empty closed =
      rw (read_frame_short_header l.reader l.in_buf (omega (arith, ap length empty)) closed)

  -- A peer that sends nothing more once the keys are agreed, and closes the connection, has received
  -- our confirmation tag in full; and the error that this side reports is one that `is_retryable`
  -- takes for a failure that cost no guess.
  pub confirm_keys_abandoned :
      (a : Agreement) (l : Link)
      → Writable l (confirm_tag env.primitives a.keys.our_confirm a.digest)
      → l.reader.inner.incoming ≡ []
      → l.reader.inner.broken ≡ none
      → ((confirm_keys env a l).0 ≡ err (protocol ProtocolError.unexpected_eof))
        × (is_retryable (protocol ProtocolError.unexpected_eof) ≡ true)
        × ((confirm_keys env a l).1.writer.inner.sent
            ≡ l.writer.inner.sent
              ++ frame_of (3 ∷ confirm_tag env.primitives a.keys.our_confirm a.digest))
  unfolding confirm_keys is_retryable is_retryable_protocol hear
  confirm_keys_abandoned a l h empty closed =
      let tag = confirm_tag env.primitives a.keys.our_confirm a.digest in
      let l1 = (say env (confirm tag) l).1 in
      let (said, sent, kept) = say-confirm l tag h in
      let lost =
        hear_closed l1 (ap (λ r. r.inner.incoming) kept ∙ empty)
          (ap (λ r. r.inner.broken) kept ∙ closed) in
      let first = continue_ok (say env (confirm tag) l) _ (3 ∷ tag) said in
      let second = continue_err (hear l1) _ (protocol ProtocolError.unexpected_eof) lost in
      let whole : confirm_keys env a l
          ≡ (err (protocol ProtocolError.unexpected_eof), (hear l1).1) =
        first ∙ second in
      (ap (λ r. r.0) whole, refl, ap (λ r. r.1.writer.inner.sent) whole ∙ sent)
