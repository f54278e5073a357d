-- ===== src/Protocol/Channel/Progress.antt =====
-- protocol/channel.rs: every message that is received takes bytes from the connection.
use rusp.Prelude.{
  ℕ, ◌+◌, ◌≤◌, ◌<◌, ◌≡◌, ◌≢◌, refl, ap, Option, none, some, List, length, length-drop, drop,
  from_be, Result, ok, err, Result-cases, inl, inr, Bool-cases, ltb, leb, arith,
}
use rusp.Error.{Error, IoError}
use rusp.Protocol.Frame.{len_prefix}
use rusp.Protocol.Stream.{
  Source, FrameReader, read_exact, read_frame, after_header, after_body, header_failure,
}
use rusp.Protocol.Message.{Incoming}
use rusp.Protocol.Externals.{Externals}
use rusp.Protocol.Channel.{Channel, recv, recv_required, required, after_read, after_open}
use rusp.Crypto.Cipher.{OpeningKey, open_frame}
use rusp.Error.{CryptoError}

read_exact_shorter :
    (s : Source) (n : ℕ) (got : List ℕ)
    → (read_exact s n).0 ≡ ok got
    → (n ≤ length s.incoming) × ((read_exact s n).1.incoming ≡ drop n s.incoming)
unfolding read_exact
read_exact_shorter s n got h = ground arith

read_exact_le : (s : Source) (n : ℕ) → length (read_exact s n).1.incoming ≤ length s.incoming
unfolding read_exact
read_exact_le s n = elim (Bool-cases (leb n (length s.incoming))) [
  | inl there ↦ rw there (omega (arith, length-drop n s.incoming))
  | inr missing ↦ rw missing (omega arith)
]

after_body_inner :
    (r : FrameReader) (n : ℕ) (arrived : List ℕ) (got : Result IoError (List ℕ) × Source)
    → (after_body r n arrived got).1.inner ≡ got.1
unfolding after_body
after_body_inner r n arrived (ok body, s) = refl
after_body_inner r n arrived (err e, s) = refl

after_header_le :
    (r : FrameReader) (out header : List ℕ) (s : Source)
    → length (after_header r out (ok header, s)).1.inner.incoming ≤ length s.incoming
unfolding after_header
after_header_le r out header s = elim (Bool-cases (ltb r.max_frame (from_be header))) [
  | inl large ↦ rw large (omega arith)
  | inr small ↦
      rw (small, after_body_inner r (from_be header) s.incoming (read_exact s (from_be header)))
        (read_exact_le s (from_be header))
]

header_failure-ne-some : (e : IoError) (n : ℕ) → header_failure e ≢ ok (some n)
unfolding header_failure
header_failure-ne-some IoError.unexpected_eof n h = cc
header_failure-ne-some IoError.not_found n h = cc
header_failure-ne-some IoError.already_exists n h = cc
header_failure-ne-some IoError.other n h = cc

read_frame_shorter :
    (r : FrameReader) (out : List ℕ) (n : ℕ)
    → (read_frame r out).0 ≡ ok (some n)
    → length (read_frame r out).1.inner.incoming + len_prefix ≤ length r.inner.incoming
unfolding read_frame
read_frame_shorter r out n h = elim (Result-cases (read_exact r.inner len_prefix).0) [
  | inl (header, got) ↦
      let (enough, left) = read_exact_shorter r.inner len_prefix header got in
      rw got (
        omega (
          arith,
          after_header_le r out header (read_exact r.inner len_prefix).1,
          ap length left,
          length-drop len_prefix r.inner.incoming,
        ))
  | inr (e, failed) ↦ absurd (header_failure-ne-some e n (unfold after_header in rw failed at h))
]

module _ (env : Externals) where
  after_open_reader :
      (c : Channel) (got : Result CryptoError (Unit {0}) × OpeningKey × List ℕ)
      → (after_open env c got).1.reader ≡ c.reader
  unfolding after_open
  after_open_reader c (ok _, k, buf) = refl
  after_open_reader c (err e, k, buf) = refl

  after_read_shorter :
      (c : Channel) (m : Incoming) (got : Result Error (Option ℕ) × FrameReader × List ℕ)
      → ((n : ℕ)
          → got.0 ≡ ok (some n)
          → length got.1.inner.incoming + len_prefix ≤ length c.reader.inner.incoming)
      → required env (after_read env c got).0 ≡ ok m
      → length (after_read env c got).1.reader.inner.incoming < length c.reader.inner.incoming
  unfolding after_read required
  after_read_shorter c m (err e, r, buf) h done = cc
  after_read_shorter c m (ok none, r, buf) h done = cc
  after_read_shorter c m (ok (some n), r, buf) h done =
      let kept =
        after_open_reader (record c { reader = r; in_buf = buf })
          (open_frame env.aead c.open_key buf) in
      omega (arith, h n refl, ap (λ k. length k.inner.incoming) kept)

  -- A message that is received takes at least one byte from the connection.
  pub recv_required_shorter :
      (c : Channel) (m : Incoming)
      → (recv_required env c).0 ≡ ok m
      → length (recv_required env c).1.reader.inner.incoming < length c.reader.inner.incoming
  unfolding recv_required recv
  recv_required_shorter c m done =
      after_read_shorter c m (read_frame c.reader c.in_buf)
        (λ n h. read_frame_shorter c.reader c.in_buf n h) done
