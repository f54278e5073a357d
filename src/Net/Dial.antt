-- ===== src/Net/Dial.antt =====
-- net/mod.rs: `dial`, how a receiver picks a path and connects.
pub mod Connected
use rusp.Prelude.{
  ℕ, Bool, Option, none, some, List, [], ◌∷◌, ◌++◌, if◌then◌else◌, codes, decimal, Result, ok, err,
}
use rusp.Error.{
  Error, Text, IoError, io, lit, shown, cancelled, network, timeout, no_route, bind, is_cancelled,
}
use rusp.Code.{RoomId}
use rusp.Config.{RelayConfig, unwrap_or}
use rusp.Protocol.Message.Codec.{Serde}
use rusp.Net.Relay.{Join, RelayReply}
use rusp.Net.Relay.Client.{Connect, rendezvous}
use rusp.Net.Discovery.{DiscoveryMessage, Round, find}
use rusp.Net.Route.{
  TcpStream, Connection, Route, lan, relay, NetOptions, connection_new, is_unroutable, lan_patience,
}

-- What an attempt to connect to an address comes to.
pub data Attempt : Type 0 where
  connected : TcpStream → Attempt
  failed : IoError → Attempt
  elapsed : Attempt

-- What a call of `dial` meets: whether the socket of the search can be bound, the rounds of the
-- search, the attempt at each address, and the connection to the relay with its waits.
pub record Surroundings : Type 0 where
  pub bound : Option IoError
  pub rounds : List Round
  pub attempt : Text → ℕ → Attempt
  pub at_relay : Connect
  pub cancels : List Bool

-- `SocketAddr::to_string`, at an address of version 4.
unfoldable pub address_text : Text → ℕ → Text
address_text ip port = ip ++ codes ":" ++ decimal port

module _ (messages : Serde DiscoveryMessage) (joins : Serde Join) (replies : Serde RelayReply)
    (peer_addr : TcpStream → Result IoError Text) where
  -- `discovery::find`, with the binding of its socket.
  unfoldable pub bind_and_find : RoomId → ℕ → Option IoError → List Round → Result Error (Text × ℕ)
  bind_and_find room patience (some e) rounds = err (network (bind (codes "udp 0.0.0.0:0") e))
  bind_and_find room patience none rounds = find messages room patience rounds

  unfoldable pub relayed : Result Error TcpStream → Result Error Connection
  relayed (err e) = err e
  relayed (ok stream) = connection_new peer_addr stream relay

  unfoldable pub by_relay :
      NetOptions
      → RoomId
      → Surroundings
      → Option Error
      → Option RelayConfig
      → Result Error Connection
  by_relay o room w lan_error none = err (unwrap_or lan_error (network no_route))
  by_relay o room w lan_error (some r) =
      relayed
        (rendezvous joins replies r.address r.token room o.connect_timeout w.at_relay w.cancels)

  unfoldable pub after_attempt :
      NetOptions → RoomId → Surroundings → Text → ℕ → Attempt → Result Error Connection
  after_attempt o room w ip port (connected stream) = connection_new peer_addr stream lan
  after_attempt o room w ip port (failed e) =
      by_relay o room w
        (some (io (lit "connect to" ∷ lit " " ∷ shown (address_text ip port) ∷ []) e)) o.relay
  after_attempt o room w ip port elapsed =
      by_relay o room w (some (network (timeout o.connect_timeout))) o.relay

  unfoldable pub after_search :
      NetOptions → RoomId → Surroundings → Result Error (Text × ℕ) → Result Error Connection
  after_search o room w (ok (ip, port)) = after_attempt o room w ip port (w.attempt ip port)
  after_search o room w (err e) =
      if is_cancelled e then err e else by_relay o room w (some e) o.relay

  unfoldable pub dial : NetOptions → RoomId → Surroundings → Result Error Connection
  dial o room w =
      if is_unroutable o
      then err (network no_route)
      else if o.lan
      then after_search o room w (bind_and_find room (lan_patience o) w.bound w.rounds)
      else by_relay o room w none o.relay
