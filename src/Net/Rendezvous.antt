-- ===== src/Net/Rendezvous.antt =====
-- net/mod.rs: `SenderRendezvous`, how a sender waits for its peer on both paths. The responder that it
-- spawns is `answer` of Net.Discovery; the token that stops it is not part of the model.
pub mod Fallback
use rusp.Prelude.{ℕ, Option, none, some, List, [], ◌∷◌, if◌then◌else◌, Result, ok, err, ◌>>=◌}
use rusp.Error.{Error, Text, IoError, lit, cancelled, network, timeout, no_route, is_cancelled}
use rusp.Code.{RoomId}
use rusp.Config.{unwrap_or, or_else}
use rusp.Net.Route.{
  TcpStream, Connection, lan, relay, NetOptions, connection_new, in_context, is_none, is_unroutable,
}

-- A bound listener is the port that it has, if that can be read.
pub record TcpListener : Type 0 where
  pub local_port : Result IoError ℕ

pub record SenderRendezvous : Type 0 where
  pub options : NetOptions
  pub room : RoomId
  pub listener : Option TcpListener
  pub relay_error : Option Error

-- What a wait for a peer meets: a cancellation, a connection to the listener, or the end of the
-- rendezvous at the relay. The list of what an `accept` meets ends with its deadline.
pub data Arrival : Type 0 where
  interrupted : Arrival
  direct : Result IoError TcpStream → Arrival
  relayed : Result Error TcpStream → Arrival

unfoldable pub listening : NetOptions → RoomId → TcpListener → ℕ → SenderRendezvous
listening o room l port = record { options = o; room = room; listener = some l; relay_error = none }

-- `SenderRendezvous::open`, with what binding the direct listener comes to.
unfoldable pub open_rendezvous :
    NetOptions → RoomId → Result IoError TcpListener → Result Error SenderRendezvous
open_rendezvous o room bound =
    if is_unroutable o
    then err (network no_route)
    else if o.lan
    then (do
      l ← in_context (lit "listen on" ∷ lit " " ∷ lit "0.0.0.0:0" ∷ []) bound
      port ← in_context (lit "read listener address" ∷ []) l.local_port
      ok (listening o room l port))
    else ok (record { options = o; room = room; listener = none; relay_error = none })

unfoldable pub lan_port : SenderRendezvous → Option ℕ
lan_port s = port_of s.listener
  where
    known : Result IoError ℕ → Option ℕ
    known (ok port) = some port
    known (err e) = none

    port_of : Option TcpListener → Option ℕ
    port_of none = none
    port_of (some l) = known l.local_port

-- The error of the relay is kept, and the relay is not tried again.
unfoldable pub give_up_relay : Error → SenderRendezvous → SenderRendezvous
give_up_relay e s = record s {
  relay_error = or_else s.relay_error (some e);
  options = record s.options { relay = none };
}

module _ (peer_addr : TcpStream → Result IoError Text) where
  unfoldable pub accept_direct : Result IoError TcpStream → Result Error Connection
  accept_direct got = do
    stream ← in_context (lit "accept a local connection" ∷ []) got
    connection_new peer_addr stream lan

  -- Without a listener no connection arrives directly, and without a relay no rendezvous ends.
  unfoldable pub accept :
      List Arrival → SenderRendezvous → Result Error Connection × SenderRendezvous
  accept [] s = (
    err (unwrap_or s.relay_error (network (timeout s.options.rendezvous_timeout))),
    record s { relay_error = none },
  )
  accept (interrupted ∷ as') s = (err cancelled, s)
  accept (direct got ∷ as') s =
      let rest = accept as' s in if is_none s.listener then rest else (accept_direct got, s)
  accept (relayed (ok stream) ∷ as') s =
      let rest = accept as' s in
      if is_none s.options.relay then rest else (connection_new peer_addr stream relay, s)
  accept (relayed (err e) ∷ as') s =
      let same = accept as' s in
      let rest = accept as' (give_up_relay e s) in
      if is_none s.options.relay
      then same
      else if is_cancelled e
      then (err e, s)
      else if is_none s.listener
      then (err e, s)
      else rest
