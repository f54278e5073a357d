-- ===== src/Tests/Handshake.antt =====
-- protocol/channel.rs: concrete runs of the handshake.
use rusp.Prelude.{
  ℕ, ◌≡◌, refl, true, none, some, List, [], ◌∷◌, ◌++◌, Result, ok, err, codes, replicate, arith,
  be_bytes, le_bytes, from_be, from_le, text_eq, decimal, digits,
}
use rusp.Error.{Error, ProtocolError, protocol}
use rusp.App.{is_retryable}
use rusp.Protocol.Frame.{
  with_capacity, payload, push_slice, push_u8, clear, ensure, write_at, finish, payload_len,
  FrameBuf,
}
use rusp.Protocol.Stream.{
  read_exact, write_all, read_frame, read_frame_required, after_header, after_body, required,
  write_buf, emit, writer_new,
}
use rusp.Protocol.Stream.Frames.{frame_of}
use rusp.Protocol.Message.{Hello, sender, receiver, confirm, peer, role_eq}
use rusp.Protocol.Message.Codec.{Serde, encode, decode, push_kind, encode_msgpack, decode_msgpack}
use rusp.Protocol.Version.{negotiate_version, check_role, write_magic, read_magic, check_magic}
use rusp.Protocol.Externals.{Externals}
use rusp.Protocol.Channel.{Channel}
use rusp.Protocol.Handshake.{
  Link, Greeting, Agreement, establish, exchange, handshake, exchange_magic, greet, say, hear,
  giving, after_encode, confirm_keys, check_tag, expect_hello, expect_pake, expect_confirm,
  open_channel, link_new,
}
use rusp.Protocol.Handshake.Confirmation.{establish_confirmed}
use rusp.Protocol.Handshake.Abandoned.{confirm_keys_abandoned}
use rusp.Crypto.Cipher.{sealing_new, opening_new}
use rusp.Crypto.Keys.{
  Secret, derive, purposes, expand, info, confirm_tag, verify_confirm, pake_start, pake_finish,
}
use rusp.Tests.Instances.{outside}

abbrev buffer : FrameBuf
buffer = record { bytes = replicate 30 0; len = 4 }

abbrev agreement : Agreement
agreement = record {
  digest = [];
  keys = record { seal = []; open_key = []; our_confirm = 5 ∷ 6 ∷ []; peer_confirm = [] };
}

-- The peer has closed the connection.
abbrev link : Link
link = record {
  reader = record { inner = record { incoming = []; broken = none }; max_frame = 100 };
  writer = record { inner = record { sent = []; room = 100 }; max_frame = 100; scratch = buffer };
  out = buffer;
  in_buf = [];
}

confirm_keys_abandoned_example :
    ((confirm_keys outside agreement link).0 ≡ err (protocol ProtocolError.unexpected_eof))
    × (is_retryable (protocol ProtocolError.unexpected_eof) ≡ true)
    × ((confirm_keys outside agreement link).1.writer.inner.sent
        ≡ frame_of (3 ∷ confirm_tag outside.primitives (5 ∷ 6 ∷ []) []))
unfolding confirm_tag frame_of be_bytes le_bytes
confirm_keys_abandoned_example =
    confirm_keys_abandoned outside agreement link
      (record {
        valid = record { prefixed = omega arith; allocated = omega arith };
        fits = omega arith;
        in_prefix = omega arith;
        room = omega arith;
      })
      refl refl

-- Every hello is one byte, and is read as that of a receiver.
abbrev one_hello : Serde Hello
one_hello = record {
  to_vec_named = λ h. some (9 ∷ []);
  from_slice =
      λ bytes. some (record { min_version = 1; max_version = 1; role = receiver; agent = [] });
}

abbrev meeting : Externals
meeting = record outside { hello_serde = one_hello }

abbrev secret : Secret
secret = record { room = codes "r"; secret = codes "s" }

abbrev peer_bytes : List ℕ
peer_bytes =
    codes "RUSP"
    ++ (0
        ∷ 0
        ∷ 0
        ∷ 2
        ∷ 1
        ∷ 9
        ∷ 0
        ∷ 0
        ∷ 0
        ∷ 2
        ∷ 2
        ∷ 7
        ∷ 0
        ∷ 0
        ∷ 0
        ∷ 25
        ∷ 3
        ∷ codes "rusp v1 confirm receiver")

abbrev met : Result Error Channel × Link
met =
    establish meeting (record { incoming = peer_bytes; broken = none })
      (record { sent = []; room = 1000 }) sender secret 4

abbrev agreed_keys : List ℕ → List ℕ
agreed_keys purpose = codes "rusp v1 " ++ purpose

abbrev channel : Channel
channel = record {
  reader = met.1.reader;
  writer = met.1.writer;
  seal_key = sealing_new (agreed_keys (codes "data sender-to-receiver"));
  open_key = opening_new (agreed_keys (codes "data receiver-to-sender"));
  version = 1;
  role = sender;
  peer_agent = [];
  in_buf = met.1.in_buf;
  out_buf = met.1.out;
}

establish_confirmed_example :
    (g : Greeting) × (a : Agreement) × (before : Link) × (after : Link) × (exchange meeting sender
        secret 4 g before
      ≡ (ok a, after))
    × (decode one_hello met.1.in_buf
        ≡ ok (confirm (confirm_tag meeting.primitives a.keys.peer_confirm a.digest)))
    × (channel.seal_key ≡ sealing_new a.keys.seal)
    × (channel.open_key ≡ opening_new a.keys.open_key)
    × (channel.version ≡ g.version)
unfolding establish handshake exchange_magic write_magic read_magic check_magic read_exact write_all
    greet say after_encode encode push_kind encode_msgpack decode_msgpack payload push_slice push_u8
    clear ensure write_at write_buf emit finish payload_len giving hear read_frame_required
    read_frame after_header after_body required from_be from_le be_bytes le_bytes decode
    expect_hello expect_pake expect_confirm negotiate_version check_role peer role_eq exchange
    pake_start pake_finish derive purposes expand info decimal digits check_tag verify_confirm
    confirm_tag text_eq confirm_keys open_channel link_new with_capacity writer_new
establish_confirmed_example =
    establish_confirmed meeting (record { incoming = peer_bytes; broken = none })
      (record { sent = []; room = 1000 }) sender secret 4 channel met.1 refl
