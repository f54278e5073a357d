-- ===== src/Net/Discovery.antt =====
-- net/discovery.rs: finding a peer on the local network. The sockets and the clock are given by what
-- each round meets; MessagePack is a parameter.
pub mod Answered
pub mod Offered
use rusp.Prelude.{
  ℕ, Bool, not, ◌&&◌, ◌||◌, Option, none, some, List, [], ◌∷◌, ◌++◌, take, drop, ◌==◌,
  if◌then◌else◌, codes, text_eq, Result, ok, err,
}
use rusp.Error.{Error, Text, cancelled, network, timeout}
use rusp.Code.{RoomId}
use rusp.Protocol.Message.Codec.{Serde}

-- The octets of `b"RUSPDS"`.
abbrev pub discovery_magic : List ℕ
discovery_magic = codes "RUSPDS"

abbrev pub max_datagram : ℕ
max_datagram = 512

pub data DiscoveryMessage : Type 0 where
  query : Text → DiscoveryMessage
  offer : Text → ℕ → DiscoveryMessage

-- What a wait inside a round meets: a datagram and the address it is from, a cancellation, or the
-- end of the window or a failing socket.
pub data Heard : Type 0 where
  received : Text → List ℕ → Heard
  interrupted : Heard
  nothing : Heard

-- Whether the query could be sent to each of the three targets.
pub record Queries : Type 0 where
  pub multicast : Bool
  pub broadcast : Bool
  pub loopback : Bool

unfoldable pub was_sent : Queries → Bool
was_sent q = q.multicast || (q.broadcast || q.loopback)

-- A round of queries: whether it is cancelled, to which targets the query could be sent, what is heard then, and
-- whether the deadline has passed behind it. A list of rounds ends with the deadline at the latest.
pub record Round : Type 0 where
  pub is_cancelled : Bool
  pub queries : Queries
  pub heard : List Heard
  pub is_late : Bool

pub data Outcome : Type 0 where
  found : Text → ℕ → Outcome
  failed : Error → Outcome
  quiet : Outcome

module _ (serde : Serde DiscoveryMessage) where
  unfoldable pub unwrap_or_default : Option (List ℕ) → List ℕ
  unwrap_or_default none = []
  unwrap_or_default (some bytes) = bytes

  unfoldable pub encode : DiscoveryMessage → List ℕ
  encode msg = discovery_magic ++ unwrap_or_default (serde.to_vec_named msg)

  -- `strip_prefix(&DISCOVERY_MAGIC)`
  unfoldable pub decode : List ℕ → Option DiscoveryMessage
  decode datagram =
      if text_eq (take 6 datagram) discovery_magic then serde.from_slice (drop 6 datagram) else none

  unfoldable pub reply_to : RoomId → ℕ → Option DiscoveryMessage → Option (List ℕ)
  reply_to room tcp_port (some (query wanted)) =
      if text_eq wanted room.as_str then some (encode (offer room.as_str tcp_port)) else none
  reply_to room tcp_port _ = none

  -- What `serve` answers to a datagram, of which the buffer takes the first part only.
  unfoldable pub answer : RoomId → ℕ → List ℕ → Option (List ℕ)
  answer room tcp_port datagram = reply_to room tcp_port (decode (take max_datagram datagram))

  unfoldable pub port_of : RoomId → Option DiscoveryMessage → Option ℕ
  port_of room (some (offer offered port)) =
      if text_eq offered room.as_str && not (port == 0) then some port else none
  port_of room _ = none

  -- The port that `find` takes from a datagram.
  unfoldable pub accepted : RoomId → List ℕ → Option ℕ
  accepted room datagram = port_of room (decode (take max_datagram datagram))

  unfoldable pub taken : Text → Option ℕ → Outcome → Outcome
  taken from none rest = rest
  taken from (some port) rest = found from port

  unfoldable pub listen : RoomId → List Heard → Outcome
  listen room [] = quiet
  listen room (interrupted ∷ hs) = failed cancelled
  listen room (nothing ∷ hs) = quiet
  listen room (received from bytes ∷ hs) = taken from (accepted room bytes) (listen room hs)

  unfoldable pub after_round :
      ℕ → Bool → Result Error (Text × ℕ) → Outcome → Result Error (Text × ℕ)
  after_round patience late rest (found from port) = ok (from, port)
  after_round patience late rest (failed e) = err e
  after_round patience late rest quiet = if late then err (network (timeout patience)) else rest

  -- The loop of `find`, with the rounds that there is time for.
  unfoldable pub find : RoomId → ℕ → List Round → Result Error (Text × ℕ)
  find room patience [] = err (network (timeout patience))
  find room patience (r ∷ rs) =
      let rest = find room patience rs in
      if r.is_cancelled
      then err cancelled
      else if not (was_sent r.queries)
      then err (network (timeout patience))
      else after_round patience r.is_late rest (listen room r.heard)
