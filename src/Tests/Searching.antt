-- ===== src/Tests/Searching.antt =====
-- A search on the local network with a datagram of somebody else before the offer.
use rusp.Prelude.{
  ℕ, ◌≡◌, ◌⊎◌, inr, refl, subst, Bool, All, map, true, false, none, some, Option, List, [], ◌∷◌,
  ◌++◌, codes, text_eq, ◌==◌, if◌then◌else◌, Result, ok, err, arith,
}
use rusp.Error.{Text, IoError, network, timeout, cancelled, is_cancelled}
use rusp.Code.{RoomId}
use rusp.Protocol.Message.Codec.{Serde, RoundTrips}
use rusp.Net.Discovery.{
  DiscoveryMessage, query, offer, Heard, received, nothing, Round, Queries, was_sent, answer,
  accepted, decode, encode, find, listen, taken, after_round, port_of, unwrap_or_default,
}
use rusp.Net.Discovery.Answered.{Fits, find-answer}
use rusp.Net.Discovery.Offered.{IsOffer, Some, find-IsOffer}
use rusp.Net.Relay.{Join, RelayReply}
use rusp.Net.Relay.Client.{Connect}
use rusp.Net.Route.{
  TcpStream, Connection, lan, NetOptions, connection_new, in_context, is_unroutable,
}
use rusp.Net.Dial.{Surroundings, connected, dial, bind_and_find, after_search, after_attempt}
use rusp.Net.Dial.Connected.{IsDirect, IsRelayed, dial_connected}
use rusp.Net.Rendezvous.{SenderRendezvous, Arrival, accept}
use rusp.Net.Rendezvous.Fallback.{failures, accept_fallback}

abbrev read_offer : List ℕ → Option DiscoveryMessage
read_offer [] = none
read_offer (port ∷ room) = some (offer room port)

abbrev read_message : List ℕ → Option DiscoveryMessage
read_message [] = none
read_message (tag ∷ rest) = if tag == 0 then some (query rest) else read_offer rest

abbrev written : DiscoveryMessage → List ℕ
written (query room) = 0 ∷ room
written (offer room port) = 1 ∷ port ∷ room

abbrev messages : Serde DiscoveryMessage
messages = record { to_vec_named = λ m. some (written m); from_slice = read_message }

read_message-written : (m : DiscoveryMessage) → read_message (written m) ≡ some m
read_message-written (query room) = refl
read_message-written (offer room port) = refl

messages-RoundTrips : RoundTrips messages
messages-RoundTrips = record {
  reads_back =
      λ m bytes h. subst (λ b. read_message b ≡ some m) (some_value h) (read_message-written m);
}
  where
    some_value : {bytes bytes' : List ℕ} → some bytes ≡ some bytes' → bytes ≡ bytes'
    some_value h = cc

abbrev kitchen : RoomId
kitchen = record { as_str = codes "k7m2" }

abbrev neighbour : Text
neighbour = codes "10.0.0.7"

abbrev asks : Fits messages (query kitchen.as_str)
asks = record { bytes = written (query kitchen.as_str); encodes = refl; fits = omega arith }

abbrev offers : Fits messages (offer kitchen.as_str 4242)
offers = record { bytes = written (offer kitchen.as_str 4242); encodes = refl; fits = omega arith }

-- A datagram of another program, and an offer for another room.
abbrev noise : List (Text × List ℕ)
noise = (neighbour, codes "hello") ∷ (neighbour, encode messages (offer (codes "x9x9") 77)) ∷ []

noise_lem : All (λ d. accepted messages kitchen d.1 ≡ none) noise
unfolding accepted decode port_of encode unwrap_or_default text_eq
noise_lem = (refl, (refl, tt))

abbrev offered : List ℕ
offered = encode messages (offer kitchen.as_str 4242)

abbrev only_loopback : Queries
only_loopback = record { multicast = false; broadcast = false; loopback = true }

find-answer_example :
    (reply : List ℕ) × ((answer messages kitchen 4242 (encode messages (query kitchen.as_str))
        ≡ some reply)
      × ((from : Text) (rest : List Heard) (late : Bool) (rounds : List Round)
          → find messages kitchen 1500 (
              record {
                is_cancelled = false;
                queries = only_loopback;
                heard = map (λ d. received d.0 d.1) noise ++ (received from reply ∷ rest);
                is_late = late;
              }
              ∷ rounds)
            ≡ ok (from, 4242)))
find-answer_example =
    find-answer messages messages-RoundTrips kitchen 4242 1500 asks offers (omega arith)
      only_loopback (inr (inr refl)) noise noise_lem

abbrev searched : List Round
searched =
    record {
      is_cancelled = false;
      queries = record { multicast = false; broadcast = true; loopback = false };
      heard = nothing ∷ [];
      is_late = false;
    }
    ∷ record {
      is_cancelled = false;
      queries = only_loopback;
      heard = received neighbour offered ∷ [];
      is_late = true;
    }
    ∷ []

searched_lem : find messages kitchen 1500 searched ≡ ok (neighbour, 4242)
unfolding was_sent find after_round listen taken accepted decode port_of encode unwrap_or_default
    text_eq
searched_lem = refl

find-IsOffer_example :
    Some
      (λ r. (r.is_cancelled ≡ false) × Some (IsOffer messages kitchen neighbour 4242) r.heard)
      searched
find-IsOffer_example = find-IsOffer messages kitchen 1500 searched neighbour 4242 searched_lem

abbrev no_joins : Serde Join
no_joins = record { to_vec_named = λ j. none; from_slice = λ bytes. none }

abbrev no_replies : Serde RelayReply
no_replies = record { to_vec_named = λ r. none; from_slice = λ bytes. none }

abbrev stream : TcpStream
stream = (record { incoming = []; broken = none }, record { sent = []; room = 100 })

abbrev local : NetOptions
local = record {
  relay = none;
  lan = true;
  discovery_port = 9111;
  connect_timeout = 10000;
  rendezvous_timeout = 1500;
}

abbrev around : Surroundings
around = record {
  bound = none;
  rounds = searched;
  attempt = λ ip port. connected stream;
  at_relay = Connect.interrupted;
  cancels = [];
}

abbrev direct : Connection
direct = record { stream = stream; route = lan; peer = neighbour }

dial_lem : dial messages no_joins no_replies (λ s. ok neighbour) local kitchen around ≡ ok direct
unfolding was_sent dial is_unroutable bind_and_find after_search after_attempt connection_new
    in_context find after_round listen taken accepted decode port_of encode unwrap_or_default
    text_eq
dial_lem = refl

dial_connected_example :
    IsDirect messages no_joins no_replies (λ s. ok neighbour) kitchen local around direct
    ⊎ IsRelayed messages no_joins no_replies (λ s. ok neighbour) kitchen local around direct
dial_connected_example =
    dial_connected messages no_joins no_replies (λ s. ok neighbour) kitchen local around direct
      dial_lem

abbrev both : SenderRendezvous
both = record {
  options = record local { relay = some (record { address = codes "relay:9110"; token = none }) };
  room = kitchen;
  listener = some (record { local_port = ok 4242 });
  relay_error = none;
}

accept_fallback_example :
    ((accept (λ s. ok neighbour) (failures (network (timeout 3) ∷ cancelled ∷ [])) both).0
      ≡ err (network (timeout 3)))
    × ((got : Result IoError TcpStream) (later : List Arrival)
        → (accept
            (λ s. ok neighbour)
            (failures (network (timeout 3) ∷ cancelled ∷ []) ++ (Arrival.direct got ∷ later))
            both).0
          ≡ (accept (λ s. ok neighbour) (Arrival.direct got ∷ later) both).0)
unfolding is_cancelled
accept_fallback_example =
    accept_fallback (λ s. ok neighbour) (network (timeout 3)) (cancelled ∷ []) both
      (record { local_port = ok 4242 }) (record { address = codes "relay:9110"; token = none }) refl
      refl refl refl
