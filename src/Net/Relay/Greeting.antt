-- ===== src/Net/Relay/Greeting.antt =====
-- net/relay.rs and net/server.rs: what a client says to a relay, and what the relay makes of it.
use rusp.Prelude.{
  ℕ, ◌+◌, ◌-◌, ◌≤◌, ◌≡◌, refl, ap, ◌∙◌, Bool, Option, some, List, [], ◌++◌, length, ok, le→leb,
  append_assoc, text_eq_refl, arith,
}
use rusp.Prelude.Steps.{continue, continue_ok}
use rusp.Error.{Text, IoError}
use rusp.Code.{RoomId}
use rusp.Protocol.Frame.{clear, push_slice, payload, with_capacity}
use rusp.Protocol.Frame.Buffer.{
  IsFrame, push_slice-IsFrame, payload-push_slice, clear-IsFrame, payload-clear,
  with_capacity-IsFrame,
}
use rusp.Protocol.Message.Codec.{Serde, RoundTrips}
use rusp.Protocol.Stream.{
  Source, Sink, write_all, read_frame_required, required, reader_new, writer_new,
}
use rusp.Protocol.Stream.Frames.{frame_of, write_buf_lem, read_frame-frame_of, read_exact_lem}
use rusp.Protocol.Channel.Delivery.{length-frame_of}
use rusp.Net.Relay.{
  Join, RelayReply, welcome, paired, relay_magic, relay_max_frame, encode, decode, decode_read,
  filled, write_magic, read_magic, check_magic,
}
use rusp.Net.Relay.Client.{
  Link, link_new, greet, put_join, send_out, announce, expect_reply, hear, first_reply,
  second_reply, rendezvous, join_room, handed, rejoin, connected,
}
use rusp.Net.Server.{read_join}

module _ (joins : Serde Join) (join : Join) (bytes : List ℕ) where
  -- The link when the greeting is out, and when the message stands in the buffer.
  abbrev greeted : Link → Link
  greeted l = record l {
    writer = record l.writer {
      inner = record {
        sent = l.writer.inner.sent ++ relay_magic;
        room = l.writer.inner.room - length relay_magic;
      };
    };
  }

  greet_lem : (l : Link) → 8 ≤ l.writer.inner.room → greet l ≡ (ok tt, greeted l)
  unfolding greet write_magic write_all
  greet_lem l h = rw (le→leb 8 l.writer.inner.room h) refl

  put_join_lem :
      (l : Link)
      → joins.to_vec_named join ≡ some bytes
      → put_join joins join l ≡ (ok tt, record l { out = push_slice (clear l.out) bytes })
  unfolding put_join encode
  put_join_lem l h = rw h refl

  -- The server reads what the client has written.
  read_join_lem :
      RoundTrips joins
      → joins.to_vec_named join ≡ some bytes
      → length bytes ≤ relay_max_frame
      → (rest : List ℕ) (broken : Option IoError)
      → read_join joins
          (record { incoming = (relay_magic ++ frame_of bytes) ++ rest; broken = broken })
        ≡ ok join
  unfolding read_join read_magic check_magic read_frame_required required decode_read decode filled
  read_join_lem laws written fits rest broken =
      rw
        (
          read_exact_lem
              (record { incoming = (relay_magic ++ frame_of bytes) ++ rest; broken = broken }) 8
              relay_magic (frame_of bytes ++ rest) (append_assoc relay_magic (frame_of bytes) rest)
              refl,
          text_eq_refl relay_magic,
          read_frame-frame_of
              (reader_new (record { incoming = frame_of bytes ++ rest; broken = broken })
                relay_max_frame)
              [] bytes rest refl fits (omega arith),
          laws.reads_back join bytes written,
        )
        refl

  out_lem :
      (l : Link)
      → IsFrame l.out
      → (IsFrame (push_slice (clear l.out) bytes))
        × (payload (push_slice (clear l.out) bytes) ≡ bytes)
  out_lem l h = (
    push_slice-IsFrame (clear l.out) bytes (clear-IsFrame l.out h),
    payload-push_slice (clear l.out) bytes (clear-IsFrame l.out h)
        ∙ ap (◌++ bytes) (payload-clear l.out),
  )

  send_out_lem :
      (l : Link)
      → IsFrame l.out
      → payload l.out ≡ bytes
      → length bytes ≤ relay_max_frame
      → l.writer.max_frame ≡ relay_max_frame
      → length (frame_of bytes) ≤ l.writer.inner.room
      → ((send_out l).0 ≡ ok tt)
        × ((send_out l).1.writer.inner.sent ≡ l.writer.inner.sent ++ frame_of bytes)
        × ((send_out l).1.reader ≡ l.reader)
        × ((send_out l).1.cancels ≡ l.cancels)
  unfolding send_out
  send_out_lem l valid held fits limit room =
      let (done, sent, _) =
        write_buf_lem l.writer l.out valid (omega (arith, ap length held, fits, limit))
          (omega (arith, ap length held, fits))
          (omega (arith, ap (λ p. length (frame_of p)) held, room)) in
      (done, ap (λ s. s.sent) sent ∙ ap (λ p. l.writer.inner.sent ++ frame_of p) held, refl, refl)

  announce_lem :
      (read : Source) (write : Sink) (cancels : List Bool)
      → joins.to_vec_named join ≡ some bytes
      → length bytes ≤ relay_max_frame
      → 12 + length bytes ≤ write.room
      → ((announce joins join (link_new read write cancels)).0 ≡ ok tt)
        × ((announce joins join (link_new read write cancels)).1.writer.inner.sent
            ≡ write.sent ++ (relay_magic ++ frame_of bytes))
        × ((announce joins join (link_new read write cancels)).1.reader
            ≡ reader_new read relay_max_frame)
        × ((announce joins join (link_new read write cancels)).1.cancels ≡ cancels)
  unfolding link_new announce writer_new with_capacity
  announce_lem read write cancels written fits room =
      let (valid, held) = out_lem l1 (with_capacity-IsFrame relay_max_frame) in
      let (done, sent, kept, waits) =
        send_out_lem l2 valid held fits refl (omega (arith, room, length-frame_of bytes)) in
      (
        ap (λ r. r.0) whole ∙ done,
        ap (λ r. r.1.writer.inner.sent) whole
            ∙ sent
            ∙ append_assoc write.sent relay_magic (frame_of bytes),
        ap (λ r. r.1.reader) whole ∙ kept,
        ap (λ r. r.1.cancels) whole ∙ waits,
      )
    where
      l0 : Link
      l0 = link_new read write cancels

      l1 : Link
      l1 = greeted l0

      l2 : Link
      l2 = record l1 { out = push_slice (clear l1.out) bytes }

      whole : announce joins join l0 ≡ send_out l2
      whole = rw (greet_lem l0 (omega (arith, room)), put_join_lem l1 written) refl

-- A client with room to write says its `Join` and the server reads just that, whatever follows.
pub read_join-announce :
    (joins : Serde Join) (join : Join) (bytes : List ℕ) (read : Source) (write : Sink)
    (cancels : List Bool) (rest : List ℕ) (broken : Option IoError)
    → RoundTrips joins
    → joins.to_vec_named join ≡ some bytes
    → length bytes ≤ relay_max_frame
    → 12 + length bytes ≤ write.room
    → ((announce joins join (link_new read write cancels)).0 ≡ ok tt)
      × (spoken : List ℕ) × ((announce joins join (link_new read write cancels)).1.writer.inner.sent
          ≡ write.sent ++ spoken)
      × (read_join joins (record { incoming = spoken ++ rest; broken = broken }) ≡ ok join)
read_join-announce joins join bytes read write cancels rest broken laws written fits room =
    let (done, sent, _, _) = announce_lem joins join bytes read write cancels written fits room in
    (
      done,
      relay_magic ++ frame_of bytes,
      sent,
      read_join_lem joins join bytes laws written fits rest broken,
    )

-- The replies of the relay: a welcome when we are first, and then `Paired`.
module _ (replies : Serde RelayReply) (room : RoomId) where
  expect_reply_lem :
      (l : Link) (reply : RelayReply) (p rest : List ℕ)
      → l.cancels ≡ []
      → l.reader.inner.incoming ≡ frame_of p ++ rest
      → replies.from_slice p ≡ some reply
      → length p ≤ l.reader.max_frame
      → length p ≤ relay_max_frame
      → expect_reply replies l ≡ (
        ok reply,
        record l {
          reader = record l.reader { inner = record l.reader.inner { incoming = rest } };
          payload = p;
          cancels = [];
        },
      )
  unfolding expect_reply hear read_frame_required required filled decode_read decode
  expect_reply_lem l reply p rest quiet e h fits small =
      rw (quiet, read_frame-frame_of l.reader l.payload p rest e fits (omega arith), h) refl

  first_reply_lem :
      (l : Link) (server : Text) (p rest : List ℕ)
      → l.cancels ≡ []
      → l.reader.inner.incoming ≡ frame_of p ++ rest
      → replies.from_slice p ≡ some paired
      → length p ≤ l.reader.max_frame
      → length p ≤ relay_max_frame
      → first_reply replies room (welcome server) l ≡ (
        ok tt,
        record l {
          reader = record l.reader { inner = record l.reader.inner { incoming = rest } };
          payload = p;
          cancels = [];
        },
      )
  unfolding first_reply second_reply
  first_reply_lem l server p rest quiet e h fits small =
      rw (expect_reply_lem l paired p rest quiet e h fits small) refl

-- A client that is welcomed and then paired gets the connection just behind the relay's last reply:
-- nothing of what its peer sends is lost.
pub rendezvous_paired :
    (joins : Serde Join) (replies : Serde RelayReply) (address server : Text) (token : Option Text)
    (room : RoomId) (limit : ℕ) (read : Source) (write : Sink) (bytes p q rest : List ℕ)
    → joins.to_vec_named (record { room = room.as_str; token = token }) ≡ some bytes
    → length bytes ≤ relay_max_frame
    → 12 + length bytes ≤ write.room
    → replies.from_slice p ≡ some (welcome server)
    → replies.from_slice q ≡ some paired
    → length p ≤ relay_max_frame
    → length q ≤ relay_max_frame
    → read.incoming ≡ frame_of p ++ (frame_of q ++ rest)
    → (sink : Sink) × (rendezvous joins replies address token room limit (connected read write) []
        ≡ ok (record read { incoming = rest }, sink))
unfolding rendezvous join_room handed rejoin
rendezvous_paired joins replies address server token room limit read write bytes p q rest written
      fits space is_welcome is_paired fits_p fits_q e =
    let (done, _, kept, quiet) =
      announce_lem joins (record { room = room.as_str; token = token }) bytes read write [] written
        fits space in
    let l =
      (announce joins (record { room = room.as_str; token = token }) (link_new read write [])).1 in
    let limit_kept : l.reader.max_frame ≡ relay_max_frame = ap (λ r. r.max_frame) kept in
    let first =
      expect_reply_lem replies room l (welcome server) p (frame_of q ++ rest) quiet
        (ap (λ r. r.inner.incoming) kept ∙ e) is_welcome (omega (arith, limit_kept, fits_p))
        fits_p in
    let l1 = record l {
      reader = record l.reader { inner = record l.reader.inner { incoming = frame_of q ++ rest } };
      payload = p;
      cancels = [];
    } in
    let second =
      first_reply_lem replies room l1 server q rest refl refl is_paired
        (omega (arith, limit_kept, fits_q)) fits_q in
    (
      l.writer.inner,
      ap handed (
            continue_ok _ _ tt done
            ∙ ap (λ r. continue r (first_reply replies room)) first
            ∙ second)
          ∙ ap (λ b. ok (record { incoming = rest; broken = b }, l.writer.inner))
              (ap (λ r. r.inner.broken) kept),
    )
