-- ===== src/Net/Discovery/Offered.antt =====
-- net/discovery.rs: what `find` has heard when it returns.
use rusp.Prelude.{
  ℕ, ◌≤◌, ◌≡◌, refl, ap, sym, Bool, true, false, not, ◌&&◌, ◌⊎◌, Bool-cases, inl, inr, Option, none,
  some, List, [], ◌∷◌, take, ◌==◌, if◌then◌else◌, text_eq, text_eq→eq, Result, ok, err, arith,
}
use rusp.Error.{Error, Text, cancelled, network, timeout}
use rusp.Code.{RoomId}
use rusp.Protocol.Message.Codec.{Serde}
use rusp.Net.Discovery.{
  DiscoveryMessage, query, offer, Heard, received, interrupted, nothing, Round, Outcome, found,
  failed, quiet, max_datagram, decode, port_of, accepted, taken, listen, after_round, was_sent,
  find,
}

-- One of the items has the property.
abbrev pub Some {ℓ} : {A : Type ℓ} → (A → Type 0) → List A → Type 0
Some P [] = ⊥
Some P (x ∷ xs) = P x ⊎ Some P xs

module _ (serde : Serde DiscoveryMessage) (room : RoomId) where
  -- A datagram that offers the room at a port.
  pub record IsOffer (from : Text) (port : ℕ) (h : Heard) : Type 0 where
    pub bytes : List ℕ
    pub heard : h ≡ received from bytes
    pub decoded : decode serde (take max_datagram bytes) ≡ some (offer room.as_str port)
    pub positive : 1 ≤ port

  offered_room :
      (r : Text) (p port : ℕ) (same : Bool)
      → text_eq r room.as_str ≡ same
      → (if same && not (p == 0) then some p else none) ≡ some port
      → (some (offer r p) ≡ some (offer room.as_str port)) × (1 ≤ port)
  offered_room r p port false same h = cc
  offered_room r p port true same h = elim (Bool-cases (p == 0)) [
    | inl zero ↦ absurd (ground (arith, h, zero))
    | inr some_port ↦
        let name = text_eq→eq r room.as_str same in
        let taken_port : some p ≡ some port = ground (arith, h, some_port) in
        (cc, ground (arith, h, some_port))
  ]

  port_of_lem :
      (m : Option DiscoveryMessage) (port : ℕ)
      → port_of serde room m ≡ some port
      → (m ≡ some (offer room.as_str port)) × (1 ≤ port)
  unfolding port_of
  port_of_lem none port h = cc
  port_of_lem (some (query r)) port h = cc
  port_of_lem (some (offer r p)) port h = offered_room r p port (text_eq r room.as_str) refl h

  taken_lem :
      (from f : Text) (port : ℕ) (p : Option ℕ) (rest : Outcome)
      → taken serde from p rest ≡ found f port
      → ((f ≡ from) × (p ≡ some port)) ⊎ (rest ≡ found f port)
  unfolding taken
  taken_lem from f port none rest h = inr h
  taken_lem from f port (some p) rest h = inl (cc, cc)

  listen_lem :
      (f : Text) (port : ℕ) (hs : List Heard)
      → listen serde room hs ≡ found f port
      → Some (IsOffer f port) hs
  unfolding listen accepted
  listen_lem f port [] h = cc
  listen_lem f port (interrupted ∷ hs) h = cc
  listen_lem f port (nothing ∷ hs) h = cc
  listen_lem f port (received from bytes ∷ hs) h =
      elim (taken_lem from f port (accepted serde room bytes) (listen serde room hs) h) [
        | inl (same, took) ↦
            let read = port_of_lem (decode serde (take max_datagram bytes)) port took in
            inl (record {
              bytes = bytes;
              heard = ap (λ x. received x bytes) (sym same);
              decoded = read.0;
              positive = read.1;
            })
        | inr later ↦ inr (listen_lem f port hs later)
      ]

  after_round_lem :
      (patience : ℕ) (late : Bool) (rest : Result Error (Text × ℕ)) (o : Outcome) (f : Text)
      (port : ℕ)
      → after_round serde patience late rest o ≡ ok (f, port)
      → (o ≡ found f port) ⊎ (rest ≡ ok (f, port))
  unfolding after_round
  after_round_lem patience late rest (found g p) f port h = inl cc
  after_round_lem patience late rest (failed e) f port h = cc
  after_round_lem patience true rest quiet f port h = cc
  after_round_lem patience false rest quiet f port h = inr h

  round_lem :
      (gone sent : Bool) (o : Outcome) (patience : ℕ) (late : Bool) (rest : Result Error (Text × ℕ))
      → (f : Text) (port : ℕ)
      → (if gone
          then err cancelled
          else if not sent
          then err (network (timeout patience))
          else after_round serde patience late rest o)
        ≡ ok (f, port)
      → ((gone ≡ false) × (o ≡ found f port)) ⊎ (rest ≡ ok (f, port))
  round_lem true sent o patience late rest f port h = cc
  round_lem false false o patience late rest f port h = cc
  round_lem false true o patience late rest f port h =
      elim (after_round_lem patience late rest o f port h) [
        | inl here ↦ inl (refl, here)
        | inr later ↦ inr later
      ]

  -- When find returns an address, it has heard from just that address, in a round that was not
  -- cancelled, a datagram whose first 512 bytes are an offer for its own room with that port, which
  -- is not zero.
  pub find-IsOffer :
      (patience : ℕ) (rounds : List Round) (from : Text) (port : ℕ)
      → find serde room patience rounds ≡ ok (from, port)
      → Some (λ r. (r.is_cancelled ≡ false) × Some (IsOffer from port) r.heard) rounds
  unfolding find
  find-IsOffer patience [] from port h = cc
  find-IsOffer patience (r ∷ rs) from port h =
      elim (round_lem r.is_cancelled (was_sent r.queries) (listen serde room r.heard) patience
        r.is_late (find serde room patience rs) from port h) [
          | inl (running, heard) ↦ inl (running, listen_lem from port r.heard heard)
          | inr later ↦ inr (find-IsOffer patience rs from port later)
        ]
