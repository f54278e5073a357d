-- ===== src/Protocol/Stream/Frames.antt =====
-- protocol/frame.rs: what the reader makes of the bytes of a connection.
use rusp.Prelude.{
  ℕ, ◌-◌, ◌^◌, ◌≤◌, ◌<◌, ◌≡◌, refl, sym, ◌∙◌, none, some, List, ◌++◌, length, ok, err, be_bytes,
  from_be, from_be-be_bytes, length-be_bytes, arith, append_assoc, length-append, take-append,
  drop-append, lt→ltb, le→not_ltb, le→leb, lt→not_leb,
}
use native.Mathlib.Nat.{mod-eq_of_lt}
use rusp.Error.{ProtocolError, frame_too_large, protocol}
use rusp.Protocol.Frame.{FrameBuf, len_prefix, payload}
use rusp.Protocol.Frame.Buffer.{IsFrame, finish_lem, length-payload}
use rusp.Protocol.Stream.{
  Source, FrameReader, FrameWriter, read_exact, write_all, read_frame, after_header, after_body,
  emit, write_buf, header_failure, body_failure,
}

-- The wire format: the length in four bytes, big endian, and the payload.
unfoldable pub frame_of : List ℕ → List ℕ
frame_of p = be_bytes 4 (length p) ++ p

pub read_exact_lem :
    (s : Source) (n : ℕ) (bs rest : List ℕ)
    → s.incoming ≡ bs ++ rest
    → n ≡ length bs
    → read_exact s n ≡ (ok bs, record s { incoming = rest })
unfolding read_exact
read_exact_lem s n bs rest e h = rw (
  e,
  le→leb n (length (bs ++ rest)) (omega (arith, length-append bs rest)),
  take-append n bs rest h,
  drop-append n bs rest h,
)

-- A frame within the limit is read whole, and nothing behind it is touched.
pub read_frame-frame_of :
    (r : FrameReader) (out p rest : List ℕ)
    → r.inner.incoming ≡ frame_of p ++ rest
    → length p ≤ r.max_frame
    → length p < 2 ^ 32
    → read_frame r out
      ≡ (ok (some (length p)), record r { inner = record r.inner { incoming = rest } }, p)
unfolding read_frame after_header after_body frame_of
read_frame-frame_of r out p rest e fits small = rw (
  read_exact_lem r.inner len_prefix (be_bytes 4 (length p)) (p ++ rest)
      (e ∙ append_assoc (be_bytes 4 (length p)) p rest) (sym (length-be_bytes 4 (length p))),
  from_be-be_bytes 4 (length p) small,
  le→not_ltb r.max_frame (length p) fits,
  read_exact_lem (record r.inner { incoming = p ++ rest }) (length p) p rest refl refl,
)

-- An announced length over the limit is refused with the caller's buffer as it was: nothing has
-- been allocated for the body.
read_frame_oversized :
    (r : FrameReader) (out header rest : List ℕ)
    → r.inner.incoming ≡ header ++ rest
    → length header ≡ 4
    → r.max_frame < from_be header
    → read_frame r out ≡ (
      err (protocol (frame_too_large (from_be header) r.max_frame)),
      record r { inner = record r.inner { incoming = rest } },
      out,
    )
unfolding read_frame after_header
read_frame_oversized r out header rest e four large = rw (
  read_exact_lem r.inner len_prefix header rest e (sym four),
  lt→ltb r.max_frame (from_be header) large,
)

-- A connection that closes inside the four bytes of a length is reported as a clean close, just as
-- one that closes between two frames.
pub read_frame_short_header :
    (r : FrameReader) (out : List ℕ)
    → length r.inner.incoming < 4
    → r.inner.broken ≡ none
    → (read_frame r out).0 ≡ ok none
unfolding read_frame after_header read_exact header_failure
read_frame_short_header r out short closed =
    rw (lt→not_leb len_prefix (length r.inner.incoming) short, closed)

-- One that closes inside a body is an error.
read_frame_short_body :
    (r : FrameReader) (out header body : List ℕ)
    → r.inner.incoming ≡ header ++ body
    → length header ≡ 4
    → length body < from_be header
    → from_be header ≤ r.max_frame
    → r.inner.broken ≡ none
    → (read_frame r out).0 ≡ err (protocol ProtocolError.unexpected_eof)
unfolding read_frame after_header after_body body_failure
read_frame_short_body r out header body e four short fits closed =
    rw
      (
        read_exact_lem r.inner len_prefix header body e (sym four),
        le→not_ltb r.max_frame (from_be header) fits,
      )
      (unfold read_exact in rw (lt→not_leb (from_be header) (length body) short, closed))

-- A buffer within the limits goes out as one frame.
pub write_buf_lem :
    (w : FrameWriter) (b : FrameBuf)
    → IsFrame b
    → length (payload b) ≤ w.max_frame
    → length (payload b) < 2 ^ 32
    → length (frame_of (payload b)) ≤ w.inner.room
    → ((write_buf w b).0 ≡ ok tt)
      × ((write_buf w b).1.inner ≡ record {
        sent = w.inner.sent ++ frame_of (payload b);
        room = w.inner.room - length (frame_of (payload b));
      })
      × ((write_buf w b).1.max_frame ≡ w.max_frame)
unfolding write_buf emit write_all frame_of
write_buf_lem w b h fits small room =
    rw
      (
        finish_lem b w.max_frame h,
        ← length-payload b h,
        le→not_ltb w.max_frame (length (payload b)) fits,
        mod-eq_of_lt small,
        le→leb (length (be_bytes 4 (length (payload b)) ++ payload b)) w.inner.room room,
      )
      (refl, refl, refl)
