-- ===== src/Net/Route.antt =====
-- net/mod.rs: connections, the path they took, and the options of a search for a peer. Durations are
-- in milliseconds, and an address is its text.
use Prim.Native.String.{String}
use rusp.Prelude.{
  ℕ, min, Bool, true, false, not, ◌&&◌, Option, none, some, [], ◌∷◌, Result, ok, ◌>>=◌, map_err,
}
use rusp.Error.{Error, Text, Message, IoError, io, lit, shown}
use rusp.Config.{RelayConfig, Config}
use rusp.Protocol.Stream.{Source, Sink}

-- The two halves of a TCP stream.
abbrev pub TcpStream : Type 0
TcpStream = Source × Sink

abbrev pub lan_patience_with_relay : ℕ
lan_patience_with_relay = 1500

pub data Route : Type 0 where
  lan relay : Route

-- `Display`
unfoldable pub route_text : Route → String
route_text lan = "local network"
route_text relay = "relay"

pub record Connection : Type 0 where
  pub stream : TcpStream
  pub route : Route
  pub peer : Text

-- `.ctx(context)`
unfoldable pub in_context : {A : Type 0} → Message → Result IoError A → Result Error A
in_context context r = map_err (io context) r

-- `Connection::new`, with what the stream says that its peer is.
unfoldable pub connection_new :
    (TcpStream → Result IoError Text) → TcpStream → Route → Result Error Connection
connection_new peer_addr stream route = do
  peer ← in_context (lit "read peer address" ∷ []) (peer_addr stream)
  ok (record { stream = stream; route = route; peer = peer })

unfoldable pub describe : Connection → Message
describe c = told c.route
  where
    told : Route → Message
    told lan = lit "connected directly to " ∷ shown c.peer ∷ lit " on the local network" ∷ []
    told relay = lit "connected through the relay at " ∷ shown c.peer ∷ []

pub record NetOptions : Type 0 where
  pub relay : Option RelayConfig
  pub lan : Bool
  pub discovery_port : ℕ
  pub connect_timeout : ℕ
  pub rendezvous_timeout : ℕ

unfoldable pub from_config : Config → NetOptions
from_config c = record {
  relay = c.relay;
  lan = c.lan_discovery;
  discovery_port = c.discovery_port;
  connect_timeout = c.connect_timeout;
  rendezvous_timeout = c.rendezvous_timeout;
}

unfoldable pub is_none : {A : Type 0} → Option A → Bool
is_none none = true
is_none (some a) = false

unfoldable pub is_unroutable : NetOptions → Bool
is_unroutable o = not o.lan && is_none o.relay

unfoldable pub lan_patience : NetOptions → ℕ
lan_patience o = patience o.relay
  where
    patience : Option RelayConfig → ℕ
    patience (some r) = min lan_patience_with_relay o.rendezvous_timeout
    patience none = o.rendezvous_timeout
