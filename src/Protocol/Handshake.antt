-- ===== src/Protocol/Handshake.antt =====
-- protocol/channel.rs: `Channel::establish`, stage by stage.
pub mod Confirmation
pub mod Abandoned
use Prim.Native.String.{String}
use rusp.Prelude.{ℕ, Option, none, some, List, [], Result, ok, err, map_err, Act}
use rusp.Prelude.Steps.{continue, ◌>>=◌, ◌>>◌, pure, lift}
use rusp.Error.{Error, ProtocolError, CryptoError, Text, protocol, crypto, unexpected}
use rusp.Protocol.Frame.{FrameBuf, default_max_frame, with_capacity, payload}
use rusp.Protocol.Stream.{
  Source, Sink, FrameReader, FrameWriter, reader_new, writer_new, read_frame_required, write_buf,
}
use rusp.Protocol.Message.{
  Role, sender, receiver, peer, Hello, Handshake, hello, pake, confirm, handshake_name,
}
use rusp.Protocol.Message.Codec.{encode, decode}
use rusp.Protocol.Version.{
  magic, local_hello, negotiate_version, check_role, write_magic, read_magic,
}
use rusp.Protocol.Externals.{Externals}
use rusp.Protocol.Channel.{Channel}
use rusp.Crypto.Cipher.{sealing_new, opening_new}
use rusp.Crypto.Keys.{
  Transcript, SessionKeys, Secret, transcript_new, absorb, absorb_u16, transcript_finish, derive,
  confirm_tag, verify_confirm, pake_start, pake_finish,
}

abbrev pub control_buf_capacity : ℕ
control_buf_capacity = 8192

-- The local variables of `establish` that hold the connection.
pub record Link : Type 0 where
  pub reader : FrameReader
  pub writer : FrameWriter
  pub out : FrameBuf
  pub in_buf : List ℕ

pub record Greeting : Type 0 where
  pub version : ℕ
  pub agent : Text
  pub transcript : Transcript

pub record Agreement : Type 0 where
  pub digest : List ℕ
  pub keys : SessionKeys

-- Two payloads in the order sender, receiver.
unfoldable pub order : Role → List ℕ → List ℕ → List ℕ × List ℕ
order sender ours theirs = (ours, theirs)
order receiver ours theirs = (theirs, ours)

unfoldable pub wrong_message : {A : Type 0} → Handshake → String → Result Error A
wrong_message msg expected = err (protocol (unexpected (handshake_name msg) expected))

unfoldable pub expect_hello : Handshake → Result Error Hello
expect_hello (hello h) = ok h
expect_hello other = wrong_message other "hello"

unfoldable pub expect_pake : Handshake → Result Error (List ℕ)
expect_pake (pake bytes) = ok bytes
expect_pake other = wrong_message other "pake"

unfoldable pub expect_confirm : Handshake → Result Error (List ℕ)
expect_confirm (confirm bytes) = ok bytes
expect_confirm other = wrong_message other "confirm"

unfoldable pub giving : {E : Type 0} {A : Type 0} {B : Type 0} → A → Result E B → Result E A
giving a (ok _) = ok a
giving a (err e) = err e

unfoldable pub link_new : Source → Sink → Link
link_new read write = record {
  reader = reader_new read default_max_frame;
  writer = writer_new write default_max_frame;
  out = with_capacity control_buf_capacity;
  in_buf = [];
}

unfoldable pub exchange_magic : Act Error Link (Unit {0})
exchange_magic = do
  (λ l.
      let (done, s) = write_magic l.writer.inner in
      (done, record l { writer = record l.writer { inner = s } }))
  (λ l.
      let (done, s) = read_magic l.reader.inner in
      (done, record l { reader = record l.reader { inner = s } }))

-- `read_frame_required`, and a copy of the buffer.
unfoldable pub hear : Act Error Link (List ℕ)
hear l =
    let (got, r, buf) = read_frame_required l.reader l.in_buf in
    (giving buf got, record l { reader = r; in_buf = buf })

module _ (env : Externals) where
  open env use {primitives, hello_serde, build}

  unfoldable pub after_encode :
      Link → Result Error (Unit {0}) × FrameBuf → Result Error (List ℕ) × Link
  after_encode l (err e, b) = (err e, record l { out = b })
  after_encode l (ok _, b) =
      let (done, w, b') = write_buf l.writer b in
      (giving (payload b) done, record l { writer = w; out = b' })

  -- Encode and write; the value is the payload.
  unfoldable pub say : Handshake → Act Error Link (List ℕ)
  say msg l = after_encode l (encode hello_serde msg l.out)

  unfoldable pub begin_transcript : Role → ℕ → List ℕ → List ℕ → Transcript
  begin_transcript role version ours theirs =
      let (sender_hello, receiver_hello) = order role ours theirs in
      absorb
        (absorb (absorb_u16 (absorb transcript_new "magic" magic) "version" version) "hello-sender"
          sender_hello)
        "hello-receiver" receiver_hello

  unfoldable pub greet : Role → Act Error Link Greeting
  greet role = do
    ours ← say (hello (local_hello build role))
    theirs ← hear
    msg ← lift (decode hello_serde theirs)
    peer_hello ← lift (expect_hello msg)
    version ← lift (negotiate_version peer_hello)
    lift (check_role peer_hello (peer role))
    pure (record {
      version = version;
      agent = peer_hello.agent;
      transcript = begin_transcript role version ours theirs;
    })

  unfoldable pub end_transcript : Role → Transcript → List ℕ → List ℕ → List ℕ
  end_transcript role t ours theirs =
      let (sender_pake, receiver_pake) = order role ours theirs in
      transcript_finish primitives
        (absorb (absorb t "pake-sender" sender_pake) "pake-receiver" receiver_pake)

  unfoldable pub exchange : Role → Secret → ℕ → Greeting → Act Error Link Agreement
  exchange role code scalar g =
      let (state, our_element) = pake_start primitives role code scalar in
      do
        ours ← say (pake our_element)
        theirs ← hear
        msg ← lift (decode hello_serde theirs)
        peer_element ← lift (expect_pake msg)
        output ← lift (map_err crypto (pake_finish primitives state peer_element))
        keys ← lift (
            map_err crypto (
              derive primitives role g.version output
                (end_transcript role g.transcript ours theirs)))
        pure (record { digest = end_transcript role g.transcript ours theirs; keys = keys })

  unfoldable pub check_tag : Agreement → List ℕ → Result Error (Unit {0})
  check_tag a tag = map_err crypto (verify_confirm primitives a.keys.peer_confirm a.digest tag)

  -- Our tag goes out before the peer's is read.
  unfoldable pub confirm_keys : Agreement → Act Error Link (Unit {0})
  confirm_keys a = do
    ours ← say (confirm (confirm_tag primitives a.keys.our_confirm a.digest))
    theirs ← hear
    msg ← lift (decode hello_serde theirs)
    tag ← lift (expect_confirm msg)
    lift (check_tag a tag)

  unfoldable pub open_channel : Role → Greeting → Agreement → Act Error Link Channel
  open_channel role g a l = (
    ok (record {
      reader = l.reader;
      writer = l.writer;
      seal_key = sealing_new a.keys.seal;
      open_key = opening_new a.keys.open_key;
      version = g.version;
      role = role;
      peer_agent = g.agent;
      in_buf = l.in_buf;
      out_buf = l.out;
    }),
    l,
  )

  unfoldable pub handshake : Role → Secret → ℕ → Act Error Link Channel
  handshake role code scalar = do
    exchange_magic
    g ← greet role
    a ← exchange role code scalar g
    confirm_keys a
    open_channel role g a

  -- `scalar` is the random scalar of the exchange.
  unfoldable pub establish : Source → Sink → Role → Secret → ℕ → Result Error Channel × Link
  establish read write role code scalar = handshake role code scalar (link_new read write)
