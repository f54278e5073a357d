-- ===== src/Lib.antt =====
-- Rusp: peer-to-peer file transfer over an authenticated, encrypted channel. A verification library
-- for the Rust sources under src/ of the repository.
--
-- How the program is put together. Two peers exchange frames with a length prefix
-- (protocol/frame.rs) that carry messages (protocol/message.rs). Behind a handshake, the channel
-- (protocol/channel.rs) seals each payload under a counter nonce (crypto/cipher.rs) with the keys of
-- crypto/keys.rs. The sender (transfer/sender.rs) offers a list of entries; the receiver
-- (transfer/receiver.rs) checks each path (files/safe_path.rs), answers with the entries it wants and
-- writes what arrives through files/writer.rs.
--
-- Which module models which file, below src/ of the repository:
--   Error: error.rs. One type per layer; a message of `format!` is the list of its pieces.
--   Config: config.rs, without the place of the file and the starter file.
--   Code, with Words, Wordlist and Generate: code/mod.rs and code/wordlist.rs.
--   Protocol.Frame: protocol/frame.rs, `FrameBuf`: the allocation and the length in use.
--   Protocol.Stream: protocol/frame.rs, `FrameReader` and `FrameWriter`. A connection is the bytes
--     still to come with what is met behind them, and the bytes written with the room that is left.
--   Protocol.Message, with Kind, Failure and Codec: protocol/message.rs.
--   Protocol.Version: protocol/mod.rs.
--   Protocol.Handshake: protocol/channel.rs, `Channel::establish` cut into its stages.
--   Protocol.Channel: protocol/channel.rs, an established `Channel`.
--   Crypto.Cipher: crypto/cipher.rs. `open_frame` is `OpeningKey::open`.
--   Crypto.Keys: crypto/keys.rs and crypto/pake.rs.
--   Files.Path: the part of std::path that is used, on Unix; a path is its text.
--   Files.SafePath: files/safe_path.rs, as it is built for Unix.
--   Files.Disk: the interface to the file system, with the laws that are relied on.
--   Files.Writer, with Create: files/writer.rs.
--   Files.Scan, with Walk: files/scan.rs. What walkdir yields and what the file system says are a
--     `FileTree`; Manifest has the invariant of the list that is offered.
--   Net.Discovery: net/discovery.rs, the datagrams, the answers and the rounds of `find`.
--   Net.Route, Net.Dial, Net.Rendezvous: net/mod.rs. `Dial.dial` is the receiver, `Rendezvous.accept`
--     the waiting sender; each takes what its calls on sockets come to.
--   Net.Relay, with Client: net/relay.rs, the messages and `rendezvous`.
--   Net.Server, with Rooms: net/server.rs. The tasks of the relay are a list, and each step of one of
--     them, as far as it touches what they share, is a move; `Pairing`, `Permits`, `Capacity`,
--     `Refusals`, `Meeting` and `Limits` have the invariants.
--   App: app.rs, `is_retryable`.
--   Transfer.Progress, Transfer.Sender, Transfer.Receiver: transfer/. Sender.Send has the operations
--     on the file and the channel, Sender.Run `send_file` and `send`; Receiver.Run has the body of
--     the loop of `run`, Receiver.Loop the loop and `accept`, Receiver.Session `begin`.
--   Tests: instances of the parameters, and each theorem applied to a concrete input.
-- A method on `&mut self` returns its result beside the new state. Bytes and words are natural
-- numbers; where a width matters the remainder is written out.
--
-- Two clients that cannot reach each other name the same room of a relay (net/relay.rs,
-- net/server.rs), which is the public half of their transfer code (code/mod.rs).
--
-- Parameters: the AEAD, SHA-256, HKDF, HMAC, SPAKE2, BLAKE3, MessagePack, TOML, the random source, the
-- file system, walkdir, the environment, the Unicode tables of `char`, and the text that an error is
-- displayed as. What is relied on of them stands in Crypto.Cipher.Assumptions (of the AEAD that it is
-- correct, and of the frames that arrive that none is a forgery), in `RoundTrips` of
-- Protocol.Message.Codec, in Files.Disk, in `IsReader` of Transfer.Sender.Reading, and in
-- `IsUnicode` of Code.Normal and `KeepsRooms` of Code.Letters.
--
-- Fuel: the loop of `run` has one more unit than there are bytes to come on the connection, and each
-- frame takes some of them. A chunk takes at most as many reads as it has bytes, and a file at most as
-- many chunks as it has bytes, since none of them is empty. The search for a free name has the tries
-- of the source, 9,999 when a file is written and 998 when one is offered.
--
-- Not modelled: the clocks behind timeouts, flushing of sockets, the copying of bytes by the relay,
-- the set-up of sockets, the characters that a build for Windows refuses in a name, the command line
-- and the terminal. A connection has finitely many bytes and then an end; a sender that keeps it open
-- and sends keepalives for ever is met by no limit of the receiver, only by its cancellation.
pub mod Prelude
pub mod Error
pub mod Config
pub mod Protocol
pub mod Code
pub mod Crypto
pub mod Files
pub mod Net
pub mod Transfer
pub mod App
pub mod Tests
