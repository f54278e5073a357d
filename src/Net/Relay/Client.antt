-- ===== src/Net/Relay/Client.antt =====
-- net/relay.rs: `rendezvous`, what a client does to be paired with its peer.
use rusp.Prelude.{ℕ, Bool, true, false, Option, List, [], ◌∷◌, Result, ok, err, Act}
use rusp.Prelude.Steps.{◌>>=◌, ◌>>◌}
use rusp.Error.{
  Error, ProtocolError, Text, IoError, protocol, network, cancelled, unexpected, relay_connect,
  timeout,
}
use rusp.Code.{RoomId}
use rusp.Protocol.Frame.{FrameBuf, with_capacity}
use rusp.Protocol.Message.Codec.{Serde}
use rusp.Protocol.Stream.{
  Source, Sink, FrameReader, FrameWriter, reader_new, writer_new, read_frame_required, write_buf,
}
use rusp.Net.Relay.{
  Join, RelayReply, welcome, paired, refused, relay_max_frame, encode, decode_read, filled, refusal,
  write_magic,
}

-- The local variables of `rendezvous` that hold the connection; `cancels` says, for each wait that
-- is still to come, whether the cancellation is what it meets first.
pub record Link : Type 0 where
  pub reader : FrameReader
  pub writer : FrameWriter
  pub out : FrameBuf
  pub payload : List ℕ
  pub cancels : List Bool

-- What the connection attempt comes to.
pub data Connect : Type 0 where
  interrupted : Connect
  connected : Source → Sink → Connect
  failed : IoError → Connect
  elapsed : Connect

unfoldable pub link_new : Source → Sink → List Bool → Link
link_new read write cancels = record {
  reader = reader_new read relay_max_frame;
  writer = writer_new write relay_max_frame;
  out = with_capacity relay_max_frame;
  payload = [];
  cancels = cancels;
}

unfoldable pub greet : Act Error Link (Unit {0})
greet l =
    let (done, s) = write_magic l.writer.inner in
    (done, record l { writer = record l.writer { inner = s } })

unfoldable pub put_join : Serde Join → Join → Act Error Link (Unit {0})
put_join s join l = let (done, b) = encode s join l.out in (done, record l { out = b })

unfoldable pub send_out : Act Error Link (Unit {0})
send_out l = let (done, w, b) = write_buf l.writer l.out in (done, record l { writer = w; out = b })

unfoldable pub hear : Act Error Link (List ℕ)
hear l =
    let (got, r, buf) = read_frame_required l.reader l.payload in
    (filled buf got, record l { reader = r; payload = buf })

-- A wait that may be cancelled first.
unfoldable pub expect_reply : Serde RelayReply → Act Error Link RelayReply
expect_reply s l = awaited l.cancels
  where
    reading : List Bool → Result Error RelayReply × Link
    reading rest = let (got, l') = hear (record l { cancels = rest }) in (decode_read s got, l')

    awaited : List Bool → Result Error RelayReply × Link
    awaited [] = reading []
    awaited (true ∷ rest) = (err cancelled, record l { cancels = rest })
    awaited (false ∷ rest) = reading rest

-- The two halves of the socket, once the relay has stopped speaking.
unfoldable pub rejoin : Link → Source × Sink
rejoin l = (l.reader.inner, l.writer.inner)

abbrev welcome_again : ProtocolError
welcome_again = unexpected "welcome" "paired"

-- The reply behind `Welcome`.
unfoldable pub second_reply : RoomId → Result Error RelayReply → Result Error (Unit {0})
second_reply room (ok paired) = ok tt
second_reply room (ok (refused reason detail)) = err (refusal reason detail room)
second_reply room (ok (welcome _)) = err (protocol welcome_again)
second_reply room (err e) = err e

unfoldable pub first_reply : Serde RelayReply → RoomId → RelayReply → Act Error Link (Unit {0})
first_reply s room (welcome _) l = let (got, l') = expect_reply s l in (second_reply room got, l')
first_reply s room paired l = (ok tt, l)
first_reply s room (refused reason detail) l = (err (refusal reason detail room), l)

-- What a client says once it is connected.
unfoldable pub announce : Serde Join → Join → Act Error Link (Unit {0})
announce joins join = do greet; put_join joins join; send_out

-- The replies that it waits for then.
unfoldable pub join_room :
    Serde Join → Serde RelayReply → RoomId → Option Text → Act Error Link (Unit {0})
join_room joins replies room token = do
  announce joins (record { room = room.as_str; token = token })
  reply ← expect_reply replies
  first_reply replies room reply

unfoldable pub handed : Result Error (Unit {0}) × Link → Result Error (Source × Sink)
handed (ok _, l) = ok (rejoin l)
handed (err e, l) = err e

unfoldable pub rendezvous :
    Serde Join
    → Serde RelayReply
    → Text
    → Option Text
    → RoomId
    → ℕ
    → Connect
    → List Bool
    → Result Error (Source × Sink)
rendezvous joins replies address token room limit interrupted cancels = err cancelled
rendezvous joins replies address token room limit (failed e) cancels =
    err (network (relay_connect address e))
rendezvous joins replies address token room limit elapsed cancels = err (network (timeout limit))
rendezvous joins replies address token room limit (connected read write) cancels =
    handed (join_room joins replies room token (link_new read write cancels))
