-- ===== src/Protocol/Stream.antt =====
-- protocol/frame.rs: reading frames from, and writing them to, a connection.
pub mod Frames
use rusp.Prelude.{
  ℕ, ◌+◌, ◌-◌, min, Option, none, some, List, [], ◌∷◌, ◌++◌, length, take, drop, replicate, ltb,
  leb, if◌then◌else◌, Result, ok, err, map_err, from_be,
}
use rusp.Error.{Error, ProtocolError, IoError, frame_too_large, protocol, io, lit, other}
use rusp.Protocol.Frame.{FrameBuf, len_prefix, with_capacity, clear, push_slice, finish}

-- An `AsyncRead`: the bytes still to come, and what a read meets behind them: the end of the
-- stream (`none`) or a failure of the connection.
pub record Source : Type 0 where
  pub incoming : List ℕ
  pub broken : Option IoError

-- An `AsyncWrite`: what has been written, and how many more bytes it takes before it fails.
pub record Sink : Type 0 where
  pub sent : List ℕ
  pub room : ℕ

abbrev pub eof_or : Option IoError → IoError
eof_or none = IoError.unexpected_eof
eof_or (some e) = e

-- tokio's `read_exact`: all of the bytes, or an error once the stream has nothing more.
unfoldable pub read_exact : Source → ℕ → Result IoError (List ℕ) × Source
read_exact s n =
    if leb n (length s.incoming)
    then (ok (take n s.incoming), record s { incoming = drop n s.incoming })
    else (err (eof_or s.broken), record s { incoming = [] })

-- tokio's `write_all`: a failing connection may have taken a first part of the bytes.
unfoldable pub write_all : Sink → List ℕ → Result IoError (Unit {0}) × Sink
write_all s written =
    if leb (length written) s.room
    then (ok tt, record { sent = s.sent ++ written; room = s.room - length written })
    else (err other, record { sent = s.sent ++ take s.room written; room = 0 })

pub record FrameReader : Type 0 where
  pub inner : Source
  pub max_frame : ℕ

abbrev pub reader_new : Source → ℕ → FrameReader
reader_new s n = record { inner = s; max_frame = n }

unfoldable pub restrict_reader : FrameReader → ℕ → FrameReader
restrict_reader r n = record r { max_frame = min r.max_frame n }

-- The two ways in which the first read may fail.
unfoldable pub header_failure : IoError → Result Error (Option ℕ)
header_failure IoError.unexpected_eof = ok none
header_failure e = err (io (lit "read frame header" ∷ []) e)

unfoldable pub body_failure : IoError → Error
body_failure IoError.unexpected_eof = protocol ProtocolError.unexpected_eof
body_failure e = io (lit "read frame body" ∷ []) e

-- The body, once the length is known. `out` is resized first: what arrived before a failure is in
-- it, and zeros behind that.
unfoldable pub after_body :
    FrameReader
    → ℕ
    → List ℕ
    → Result IoError (List ℕ) × Source
    → Result Error (Option ℕ) × FrameReader × List ℕ
after_body r n arrived (ok body, s) = (ok (some n), record r { inner = s }, body)
after_body r n arrived (err e, s) =
    (err (body_failure e), record r { inner = s }, arrived ++ replicate (n - length arrived) 0)

unfoldable pub after_header :
    FrameReader
    → List ℕ
    → Result IoError (List ℕ) × Source
    → Result Error (Option ℕ) × FrameReader × List ℕ
after_header r out (err e, s) = (header_failure e, record r { inner = s }, out)
after_header r out (ok header, s) =
    let n = from_be header in
    if ltb r.max_frame n
    then (err (protocol (frame_too_large n r.max_frame)), record r { inner = s }, out)
    else after_body r n s.incoming (read_exact s n)

-- The result, the reader and the caller's buffer `out`.
unfoldable pub read_frame : FrameReader → List ℕ → Result Error (Option ℕ) × FrameReader × List ℕ
read_frame r out = after_header r out (read_exact r.inner len_prefix)

unfoldable pub required : Result Error (Option ℕ) → Result Error ℕ
required (ok (some n)) = ok n
required (ok none) = err (protocol ProtocolError.unexpected_eof)
required (err e) = err e

unfoldable pub read_frame_required : FrameReader → List ℕ → Result Error ℕ × FrameReader × List ℕ
read_frame_required r out = let (got, r', out') = read_frame r out in (required got, r', out')

pub record FrameWriter : Type 0 where
  pub inner : Sink
  pub max_frame : ℕ
  pub scratch : FrameBuf

unfoldable pub writer_new : Sink → ℕ → FrameWriter
writer_new s n = record { inner = s; max_frame = n; scratch = with_capacity 4096 }

unfoldable pub restrict_writer : FrameWriter → ℕ → FrameWriter
restrict_writer w n = record w { max_frame = min w.max_frame n }

-- The second half of both write methods.
unfoldable pub emit : Sink → Result Error (List ℕ) → Result Error (Unit {0}) × Sink
emit s (err e) = (err e, s)
emit s (ok frame) =
    let (done, s') = write_all s frame in (map_err (io (lit "write frame" ∷ [])) done, s')

unfoldable pub write_buf : FrameWriter → FrameBuf → Result Error (Unit {0}) × FrameWriter × FrameBuf
write_buf w b =
    let (frame, b') = finish b w.max_frame in
    let (done, s) = emit w.inner frame in (done, record w { inner = s }, b')

unfoldable pub write_payload : FrameWriter → List ℕ → Result Error (Unit {0}) × FrameWriter
write_payload w bytes =
    let (frame, b) = finish (push_slice (clear w.scratch) bytes) w.max_frame in
    let (done, s) = emit w.inner frame in (done, record w { inner = s; scratch = b })
