-- ===== src/Tests/Sending.antt =====
-- A file that is sent, on a concrete channel.
use rusp.Prelude.{
  ℕ, zero, suc, ◌≤◌, ◌≡◌, refl, sym, ap, false, Option, none, some, List, [], ◌∷◌, take, drop,
  replicate, take-append-drop, length-take, Result, ok, arith, be_bytes, le_bytes,
}
use rusp.Error.{IoError}
use rusp.Protocol.Frame.{
  FrameBuf, payload, clear, push_slice, push_u8, ensure, write_at, claim, fill, set_payload_len,
  payload_len, payload_mut, finish,
}
use rusp.Protocol.Frame.Buffer.{IsFrame}
use rusp.Protocol.Stream.{write_buf, emit, write_all}
use rusp.Protocol.Message.{
  sender, ControlMessage, Entry, capabilities, offer, accept, decline, file_start, file_end,
  complete, cancel, failure, keepalive,
}
use rusp.Protocol.Message.Codec.{
  Serde, RoundTrips, encode_control, push_kind, encode_msgpack, start_data,
}
use rusp.Protocol.Externals.{Externals}
use rusp.Protocol.Channel.{
  Channel, send_frame, after_seal, after_encode, keep_out, send_control, stage_data, finish_data,
}
use rusp.Crypto.Cipher.{seal, sealed, advance_seal, checked_add_one}
use rusp.Transfer.Sender.{cancel_check}
use rusp.Transfer.Sender.Send.{
  Reader, Sending, fill_chunk, after_read, open_source, checked, check_cancelled, on_files,
  on_channel, after_finish, send_chunk,
}
use rusp.Transfer.Sender.Send
use rusp.Transfer.Sender.Run.{send_message, after_chunk, send_chunks, send_file}
use rusp.Transfer.Sender.Reading.{IsReader}
use rusp.Transfer.Sender.Whole.{IsSent, send_file_lem}
use rusp.Tests.Instances.{plain-IsAead, outside}

-- The start and the end of a file are written.
abbrev file_bytes : ControlMessage → Option (List ℕ)
file_bytes (file_start i) = some (i ∷ [])
file_bytes (file_end i hash n) = some (i ∷ n ∷ hash)
file_bytes _ = none

abbrev file_message : List ℕ → Option ControlMessage
file_message (i ∷ []) = some (file_start i)
file_message (i ∷ n ∷ hash) = some (file_end i hash n)
file_message _ = none

abbrev file_messages : Serde ControlMessage
file_messages = record { to_vec_named = file_bytes; from_slice = file_message }

file_back :
    (m : ControlMessage) (bytes : List ℕ) → file_bytes m ≡ some bytes → file_message bytes ≡ some m
file_back (file_start i) bytes h = rw (← bytes_of h) refl
  where
    bytes_of : {a b : List ℕ} → some a ≡ some b → a ≡ b
    bytes_of e = cc
file_back (file_end i hash n) bytes h = rw (← bytes_of h) refl
  where
    bytes_of : {a b : List ℕ} → some a ≡ some b → a ≡ b
    bytes_of e = cc
file_back (capabilities _) bytes h = cc
file_back (offer _) bytes h = cc
file_back (accept _) bytes h = cc
file_back (decline _) bytes h = cc
file_back keepalive bytes h = cc
file_back (complete _) bytes h = cc
file_back (cancel _) bytes h = cc
file_back (failure _ _) bytes h = cc

file_messages-RoundTrips : RoundTrips file_messages
file_messages-RoundTrips = record { reads_back = file_back }

abbrev env : Externals
env = record outside { control_serde = file_messages }

-- A file is the bytes that it has still to give; a read gives what it is asked for.
abbrev reader : Reader (List ℕ)
reader = record { open_file = λ path f. (ok tt, f); read = λ n f. (ok (take n f), drop n f) }

abbrev left : List ℕ → List ℕ
left f = f

values :
    {a b : List ℕ} {f f' : List ℕ}
    → ◌≡◌ {A = Result IoError (List ℕ) × List ℕ} (ok a, f) (ok b, f')
    → (a ≡ b) × (f ≡ f')
values {a} {b} h = (value (ap (λ q. q.0) h), ap (λ q. q.1) h)
  where
    value : ◌≡◌ {A = Result IoError (List ℕ)} (ok a) (ok b) → a ≡ b
    value e = cc

drop_all : (n : ℕ) (f : List ℕ) → take n f ≡ [] → 1 ≤ n → drop n f ≡ []
drop_all zero f h pos = absurd (omega arith)
drop_all (suc n) [] h pos = refl
drop_all (suc n) (x ∷ f) h pos = cc

reader-IsReader : IsReader reader left
reader-IsReader = record {
  gives = λ n f f' bytes h.
      let (same, after) = values h in
      (
        rw (← same, ← after) (sym (take-append-drop n f)),
        rw (← same) (omega (arith, length-take n f)),
      );
  ends = λ n f f' h pos. let (same, after) = values h in rw (← after) (drop_all n f same pos);
}

abbrev buffer : FrameBuf
buffer = record { bytes = replicate 40 0; len = 4 }

buffer-IsFrame : IsFrame buffer
buffer-IsFrame = record { prefixed = omega arith; allocated = omega arith }

abbrev channel : Channel
channel = record {
  reader = record { inner = record { incoming = []; broken = none }; max_frame = 100 };
  writer = record { inner = record { sent = []; room = 400 }; max_frame = 100; scratch = buffer };
  seal_key = record { key = []; counter = 0 };
  open_key = record { key = []; counter = 0; poisoned = false };
  version = 1;
  role = sender;
  peer_agent = [];
  in_buf = [];
  out_buf = buffer;
}

-- A file of three bytes that has grown to four since it was scanned.
abbrev before : Sending (List ℕ)
before = record {
  channel = channel;
  buf = buffer;
  files = 7 ∷ 8 ∷ 9 ∷ 10 ∷ [];
  cancels = [];
  events = [];
}

abbrev entry : Entry
entry = record { path = []; kind = 0; size = 3; mode = none; mtime = none }

abbrev digest : List ℕ → List ℕ
digest bytes = bytes

send_file_lem_example :
    IsSent env digest reader left 0 2 3 3
      (7 ∷ 8 ∷ 9 ∷ 10 ∷ [])
      before
      (send_file env digest reader 0 entry [] 2 before).1
unfolding send_file send_message on_channel send_control after_encode encode_control push_kind
    encode_msgpack keep_out send_frame after_seal seal sealed advance_seal checked_add_one write_buf
    emit be_bytes le_bytes finish_data stage_data claim clear ensure fill finish payload payload_len
    payload_mut push_slice push_u8 set_payload_len write_at start_data write_all after_chunk
    send_chunks after_finish after_read check_cancelled checked Send.emit fill_chunk on_files
    open_source send_chunk cancel_check
send_file_lem_example =
    send_file_lem env digest reader left 0 entry [] 2 3 (7 ∷ 8 ∷ 9 ∷ 10 ∷ []) before
      (send_file env digest reader 0 entry [] 2 before).1 plain-IsAead file_messages-RoundTrips
      reader-IsReader (λ f h. sym (ap (λ q. q.1) h)) (buffer-IsFrame, buffer-IsFrame) (omega arith)
      (omega arith) refl
