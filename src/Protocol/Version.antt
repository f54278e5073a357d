-- ===== src/Protocol/Version.antt =====
-- protocol/mod.rs: the connection magic, version negotiation and roles.
pub mod Negotiation
use Prim.Native.String.{String}
use rusp.Prelude.{
  ℕ, ◌*◌, min, Bool, ◌||◌, List, [], ◌∷◌, ◌++◌, ltb, if◌then◌else◌, text_eq, codes, Result, ok, err,
  map_err,
}
use rusp.Error.{
  Error, ProtocolError, IoError, Text, protocol, io, malformed, incompatible_version, bad_magic,
  lit, number,
}
use rusp.Protocol.Frame.{default_max_frame}
use rusp.Protocol.Stream.{Source, Sink, read_exact, write_all}
use rusp.Protocol.Message.{Role, role_eq, label, Hello, Capabilities}

abbrev pub magic : List ℕ
magic = codes "RUSP"

abbrev pub protocol_min : ℕ
protocol_min = 1

abbrev pub protocol_max : ℕ
protocol_max = 1

abbrev pub default_chunk_size : ℕ
default_chunk_size = 256 * 1024

abbrev pub min_chunk_size : ℕ
min_chunk_size = 4 * 1024

-- The version string of the build is a parameter.
unfoldable pub agent_string : Text → Text
agent_string version = codes "rusp/" ++ version

unfoldable pub local_capabilities : Capabilities
local_capabilities = record {
  max_frame = default_max_frame;
  chunk_size = default_chunk_size;
  features = [];
}

unfoldable pub local_hello : Text → Role → Hello
local_hello version role = record {
  min_version = protocol_min;
  max_version = protocol_max;
  role = role;
  agent = agent_string version;
}

unfoldable pub negotiate_version : Hello → Result Error ℕ
negotiate_version peer =
    let chosen = min protocol_max peer.max_version in
    if ltb peer.max_version peer.min_version
    then err (
        protocol (
          malformed (
            lit "peer announced an impossible version range v"
            ∷ number peer.min_version
            ∷ lit "-v"
            ∷ number peer.max_version
            ∷ [])))
    else if ltb chosen protocol_min || ltb chosen peer.min_version
    then err (
        protocol (incompatible_version peer.min_version peer.max_version protocol_min protocol_max))
    else ok chosen

unfoldable pub check_role : Hello → Role → Result Error (Unit {0})
check_role peer expected =
    if role_eq peer.role expected
    then ok tt
    else err (
        protocol (
          malformed (
            lit "expected to meet a "
            ∷ lit (label expected)
            ∷ lit " but the other side is also a "
            ∷ lit (label peer.role)
            ∷ [])))

unfoldable pub write_magic : Sink → Result Error (Unit {0}) × Sink
write_magic w =
    let (done, w') = write_all w magic in (map_err (io (lit "write protocol magic" ∷ [])) done, w')

unfoldable pub magic_failure : IoError → Error
magic_failure IoError.unexpected_eof = protocol ProtocolError.unexpected_eof
magic_failure e = io (lit "read protocol magic" ∷ []) e

unfoldable pub check_magic : Result IoError (List ℕ) → Result Error (Unit {0})
check_magic (err e) = err (magic_failure e)
check_magic (ok got) = if text_eq got magic then ok tt else err (protocol bad_magic)

unfoldable pub read_magic : Source → Result Error (Unit {0}) × Source
read_magic r = let (got, r') = read_exact r 4 in (check_magic got, r')
