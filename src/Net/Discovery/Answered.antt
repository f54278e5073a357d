-- ===== src/Net/Discovery/Answered.antt =====
-- net/discovery.rs: how a query of `find` and the answer of `serve` meet.
use rusp.Prelude.{
  ℕ, ◌+◌, ◌≤◌, ◌≡◌, ◌⊎◌, refl, ap, ◌∙◌, Bool, true, false, none, some, List, [], ◌∷◌, ◌++◌, length,
  map, take, All, text_eq, text_eq_refl, take_all, ok, arith,
}
use rusp.Error.{Text}
use rusp.Code.{RoomId}
use rusp.Protocol.Message.Codec.{Serde, RoundTrips}
use rusp.Net.Discovery.{
  Queries, was_sent, DiscoveryMessage, query, offer, Heard, received, Round, discovery_magic,
  max_datagram, unwrap_or_default, encode, decode, reply_to, answer, port_of, accepted, taken,
  listen, after_round, find,
}

module _ (serde : Serde DiscoveryMessage) where
  -- A message that MessagePack encodes, and that fits into a datagram with the magic bytes.
  pub record Fits (msg : DiscoveryMessage) : Type 0 where
    pub bytes : List ℕ
    pub encodes : serde.to_vec_named msg ≡ some bytes
    pub fits : 6 + length bytes ≤ max_datagram

  received_whole :
      (msg : DiscoveryMessage) (f : Fits msg)
      → take max_datagram (encode serde msg) ≡ discovery_magic ++ f.bytes
  unfolding encode unwrap_or_default
  received_whole msg f =
      ap (λ b. take max_datagram (discovery_magic ++ unwrap_or_default serde b)) f.encodes
      ∙ take_all max_datagram (discovery_magic ++ f.bytes) (omega (arith, f.fits))

  read_encoded :
      RoundTrips serde
      → (msg : DiscoveryMessage) → Fits msg
      → decode serde (take max_datagram (encode serde msg)) ≡ some msg
  unfolding decode text_eq
  read_encoded laws msg f =
      ap (decode serde) (received_whole msg f) ∙ laws.reads_back msg f.bytes f.encodes

  answer_lem :
      RoundTrips serde
      → (room : RoomId) (tcp_port : ℕ) → Fits (query room.as_str)
      → answer serde room tcp_port (encode serde (query room.as_str))
        ≡ some (encode serde (offer room.as_str tcp_port))
  unfolding answer reply_to
  answer_lem laws room tcp_port f =
      rw (read_encoded laws (query room.as_str) f) (rw (text_eq_refl room.as_str) refl)

  accepted_lem :
      RoundTrips serde
      → (room : RoomId) (tcp_port : ℕ) → Fits (offer room.as_str tcp_port)
      → 1 ≤ tcp_port
      → accepted serde room (encode serde (offer room.as_str tcp_port)) ≡ some tcp_port
  unfolding accepted port_of
  accepted_lem laws room tcp_port f h =
      rw (read_encoded laws (offer room.as_str tcp_port) f)
        (rw (text_eq_refl room.as_str) (ground arith))

  -- Datagrams that are no offer for the room change nothing.
  listen_noise :
      (room : RoomId) (noise : List (Text × List ℕ))
      → All (λ d. accepted serde room d.1 ≡ none) noise
      → (rest : List Heard)
      → listen serde room (map (λ d. received d.0 d.1) noise ++ rest) ≡ listen serde room rest
  unfolding listen taken
  listen_noise room [] all rest = refl
  listen_noise room ((from, bytes) ∷ ds) (none_here, others) rest =
      rw none_here (listen_noise room ds others rest)

  was_sent_lem :
      (q : Queries)
      → (q.multicast ≡ true) ⊎ (q.broadcast ≡ true) ⊎ (q.loopback ≡ true)
      → was_sent q ≡ true
  unfolding was_sent
  was_sent_lem q h = ground arith

  -- A sender that offers a room at a port other than zero answers the query of a receiver for that
  -- room. In a first round that is not cancelled, and in which the query could be sent to any one of
  -- the three targets, the receiver takes the answer and with it the port of the sender, though
  -- datagrams that are no offer for the room come before it; MessagePack reads back what it writes,
  -- and both messages fit into a datagram.
  pub find-answer :
      RoundTrips serde
      → (room : RoomId) (tcp_port patience : ℕ) → Fits (query room.as_str)
      → Fits (offer room.as_str tcp_port)
      → 1 ≤ tcp_port
      → (queries : Queries)
      → (queries.multicast ≡ true) ⊎ (queries.broadcast ≡ true) ⊎ (queries.loopback ≡ true)
      → (noise : List (Text × List ℕ)) → All (λ d. accepted serde room d.1 ≡ none) noise
      → (reply : List ℕ) × ((answer serde room tcp_port (encode serde (query room.as_str))
            ≡ some reply)
          × ((from : Text) (rest : List Heard) (late : Bool) (rounds : List Round)
              → find serde room patience (
                  record {
                    is_cancelled = false;
                    queries = queries;
                    heard = map (λ d. received d.0 d.1) noise ++ (received from reply ∷ rest);
                    is_late = late;
                  }
                  ∷ rounds)
                ≡ ok (from, tcp_port)))
  unfolding find after_round listen taken
  find-answer laws room tcp_port patience asks offers positive queries reached noise all = (
    encode serde (offer room.as_str tcp_port),
    (
      answer_lem laws room tcp_port asks,
      λ from rest late rounds.
          rw
            (listen_noise room noise all
              (received from (encode serde (offer room.as_str tcp_port)) ∷ rest))
            (rw (accepted_lem laws room tcp_port offers positive, was_sent_lem queries reached)
              refl),
    ),
  )
