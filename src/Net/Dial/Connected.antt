-- ===== src/Net/Dial/Connected.antt =====
-- net/mod.rs: where the connection of a `dial` comes from.
use rusp.Prelude.{
  ℕ, ◌≡◌, refl, sym, ap, ◌∙◌, ◌⊎◌, inl, inr, Bool, true, false, Option, none, some, List, [], ◌∷◌,
  if◌then◌else◌, Result, ok, err, >>=-eq-ok,
}
use rusp.Error.{Error, Text, IoError, lit, network, no_route, is_cancelled}
use rusp.Code.{RoomId}
use rusp.Config.{RelayConfig}
use rusp.Protocol.Message.Codec.{Serde}
use rusp.Net.Relay.{Join, RelayReply}
use rusp.Net.Relay.Client.{rendezvous}
use rusp.Net.Discovery.{DiscoveryMessage, Round}
use rusp.Net.Discovery.Offered.{IsOffer, Some, find-IsOffer}
use rusp.Net.Route.{
  TcpStream, Connection, Route, lan, relay, NetOptions, connection_new, in_context, is_unroutable,
  lan_patience,
}
use rusp.Net.Dial.{
  Attempt, connected, failed, elapsed, Surroundings, bind_and_find, relayed, by_relay,
  after_attempt, after_search, dial,
}

ok-injective : {c c' : Connection} → ◌≡◌ {A = Result Error Connection} (ok c) (ok c') → c ≡ c'
ok-injective h = cc

connection_new_lem :
    (peer_addr : TcpStream → Result IoError Text) (s : TcpStream) (r : Route) (c : Connection)
    → connection_new peer_addr s r ≡ ok c
    → (c.stream ≡ s) × (c.route ≡ r)
unfolding connection_new
connection_new_lem peer_addr s r c h =
    let (peer, read, made) =
      >>=-eq-ok (in_context (lit "read peer address" ∷ []) (peer_addr s))
        (λ peer. ok (record { stream = s; route = r; peer = peer })) h in
    let same = ok-injective made in (sym (ap (λ c. c.stream) same), sym (ap (λ c. c.route) same))

module _ (messages : Serde DiscoveryMessage) (joins : Serde Join) (replies : Serde RelayReply)
    (peer_addr : TcpStream → Result IoError Text) (room : RoomId) where
  -- A direct connection to an address that has offered the room.
  pub record IsDirect (o : NetOptions) (w : Surroundings) (c : Connection) : Type 0 where
    pub direct : c.route ≡ lan
    pub enabled : o.lan ≡ true
    pub ip : Text
    pub port : ℕ
    pub offered :
        Some (λ r. (r.is_cancelled ≡ false) × Some (IsOffer messages room ip port) r.heard) w.rounds
    pub reached : w.attempt ip port ≡ connected c.stream

  -- A connection through the relay of the options, once the relay has paired it.
  pub record IsRelayed (o : NetOptions) (w : Surroundings) (c : Connection) : Type 0 where
    pub through : c.route ≡ relay
    pub at : RelayConfig
    pub configured : o.relay ≡ some at
    pub paired :
        rendezvous joins replies at.address at.token room o.connect_timeout w.at_relay w.cancels
        ≡ ok c.stream

  relayed_lem :
      (o : NetOptions) (w : Surroundings) (c : Connection) (r : RelayConfig)
      (got : Result Error TcpStream)
      → o.relay ≡ some r
      → rendezvous joins replies r.address r.token room o.connect_timeout w.at_relay w.cancels ≡ got
      → relayed messages joins replies peer_addr got ≡ ok c
      → IsRelayed o w c
  unfolding relayed
  relayed_lem o w c r (err e) set same h = cc
  relayed_lem o w c r (ok s) set same h =
      let new = connection_new_lem peer_addr s relay c h in
      record { through = new.1; at = r; configured = set; paired = same ∙ ap ok (sym new.0) }

  by_relay_lem :
      (o : NetOptions) (w : Surroundings) (lan_error : Option Error) (r : Option RelayConfig)
      → (c : Connection) → o.relay ≡ r
      → by_relay messages joins replies peer_addr o room w lan_error r ≡ ok c
      → IsRelayed o w c
  unfolding by_relay
  by_relay_lem o w lan_error none c set h = cc
  by_relay_lem o w lan_error (some r) c set h = relayed_lem o w c r _ set refl h

  after_attempt_lem :
      (o : NetOptions) (w : Surroundings) (ip : Text) (port : ℕ) (a : Attempt) (c : Connection)
      → after_attempt messages joins replies peer_addr o room w ip port a ≡ ok c
      → ((c.route ≡ lan) × (a ≡ connected c.stream)) ⊎ IsRelayed o w c
  unfolding after_attempt
  after_attempt_lem o w ip port (connected s) c h =
      let new = connection_new_lem peer_addr s lan c h in inl (new.1, ap connected (sym new.0))
  after_attempt_lem o w ip port (failed e) c h = inr (by_relay_lem o w _ o.relay c refl h)
  after_attempt_lem o w ip port elapsed c h = inr (by_relay_lem o w _ o.relay c refl h)

  -- What the search comes to is an offer that was heard.
  bind_and_find_lem :
      (patience : ℕ) (bound : Option IoError) (rounds : List Round) (ip : Text) (port : ℕ)
      → bind_and_find messages joins replies peer_addr room patience bound rounds ≡ ok (ip, port)
      → Some (λ r. (r.is_cancelled ≡ false) × Some (IsOffer messages room ip port) r.heard) rounds
  unfolding bind_and_find
  bind_and_find_lem patience (some e) rounds ip port h = cc
  bind_and_find_lem patience none rounds ip port h =
      find-IsOffer messages room patience rounds ip port h

  after_search_lem :
      (o : NetOptions) (w : Surroundings) (c : Connection) (got : Result Error (Text × ℕ))
      → bind_and_find messages joins replies peer_addr room (lan_patience o) w.bound w.rounds ≡ got
      → o.lan ≡ true
      → after_search messages joins replies peer_addr o room w got ≡ ok c
      → IsDirect o w c ⊎ IsRelayed o w c
  unfolding after_search
  after_search_lem o w c (err e) same on h =
      inr (by_relay_lem o w (some e) o.relay c refl (fell_through (is_cancelled e) h))
    where
      fell_through :
          {rest : Result Error Connection} (gone : Bool)
          → (if gone then err e else rest) ≡ ok c
          → rest ≡ ok c
      fell_through true h = cc
      fell_through false h = h
  after_search_lem o w c (ok (ip, port)) same on h =
      elim (after_attempt_lem o w ip port (w.attempt ip port) c h) [
        | inl (direct, reached) ↦ inl (record {
          direct = direct;
          enabled = on;
          ip = ip;
          port = port;
          offered = bind_and_find_lem (lan_patience o) w.bound w.rounds ip port same;
          reached = reached;
        })
        | inr through ↦ inr through
      ]

  -- A dial that connects has done so in one of two ways. Either it went directly to an address from
  -- which it has heard an offer for its own room at that port, and search on the local network was
  -- enabled, or a configured relay has paired it in that room.
  pub dial_connected :
      (o : NetOptions) (w : Surroundings) (c : Connection)
      → dial messages joins replies peer_addr o room w ≡ ok c
      → IsDirect o w c ⊎ IsRelayed o w c
  unfolding dial
  dial_connected o w c h = picked (is_unroutable o) (o.lan) refl h
    where
      picked :
          (unroutable on : Bool)
          → o.lan ≡ on
          → (if unroutable
              then err (network no_route)
              else if on
              then after_search messages joins replies peer_addr o room w (
                  bind_and_find messages joins replies peer_addr room
                    (lan_patience o)
                    w.bound
                    w.rounds)
              else by_relay messages joins replies peer_addr o room w none o.relay)
            ≡ ok c
          → IsDirect o w c ⊎ IsRelayed o w c
      picked true on same h = cc
      picked false true same h = after_search_lem o w c _ refl same h
      picked false false same h = inr (by_relay_lem o w none o.relay c refl h)
