-- ===== src/Net/Rendezvous/Fallback.antt =====
-- net/mod.rs: a waiting sender whose relay fails.
use rusp.Prelude.{
  ◌≡◌, refl, sym, ap, ◌∙◌, Bool, true, false, none, some, List, [], ◌∷◌, ◌++◌, map, append-nil,
  if◌then◌else◌, Result, err,
}
use rusp.Error.{Error, IoError, Text, is_cancelled, network, timeout}
use rusp.Config.{RelayConfig, or_else, unwrap_or}
use rusp.Net.Route.{TcpStream, is_none}
use rusp.Net.Rendezvous.{
  TcpListener, SenderRendezvous, Arrival, direct, relayed, give_up_relay, accept, accept_direct,
}

-- A rendezvous that ends with each of these errors in turn.
abbrev pub failures : List Error → List Arrival
failures es = map (λ e. relayed (err e)) es

if_true : {A : Type 0} {b : Bool} {x : A} (y : A) → b ≡ true → (if b then x else y) ≡ x
if_true y h = rw h refl

if_false : {A : Type 0} {b : Bool} (x : A) {y : A} → b ≡ false → (if b then x else y) ≡ y
if_false x h = rw h refl

module _ (peer_addr : TcpStream → Result IoError Text) where
  -- Once the relay is given up, its failures are not met.
  accept-failures :
      (es : List Error) (later : List Arrival) (s : SenderRendezvous)
      → s.options.relay ≡ none
      → accept peer_addr (failures es ++ later) s ≡ accept peer_addr later s
  unfolding accept is_none
  accept-failures [] later s h = refl
  accept-failures (e ∷ es) later s h = if_true _ (ap is_none h) ∙ accept-failures es later s h

  accept_first :
      (e : Error) (later : List Arrival) (s : SenderRendezvous) (l : TcpListener) (r : RelayConfig)
      → is_cancelled e ≡ false
      → s.listener ≡ some l
      → s.options.relay ≡ some r
      → accept peer_addr (relayed (err e) ∷ later) s ≡ accept peer_addr later (give_up_relay e s)
  unfolding accept is_none
  accept_first e later s l r alive listens set =
      if_false _ (ap is_none set) ∙ if_false _ alive ∙ if_false _ (ap is_none listens)

  accept-direct :
      (got : Result IoError TcpStream) (later : List Arrival) (s : SenderRendezvous)
      → (l : TcpListener) → s.listener ≡ some l
      → accept peer_addr (direct got ∷ later) s ≡ (accept_direct peer_addr got, s)
  unfolding accept is_none
  accept-direct got later s l listens = if_false _ (ap is_none listens)

  -- A sender that listens on the local network and waits at a relay, with no error of the relay kept
  -- so far, outlives the failures of the relay, the first of which is no cancellation. If nothing else
  -- comes before the deadline then accept reports the first failure and not the timeout, and a direct
  -- connection that comes after them is taken as it would have been without them.
  pub accept_fallback :
      (e : Error) (es : List Error) (s : SenderRendezvous) (l : TcpListener) (r : RelayConfig)
      → is_cancelled e ≡ false
      → s.listener ≡ some l
      → s.options.relay ≡ some r
      → s.relay_error ≡ none
      → ((accept peer_addr (failures (e ∷ es)) s).0 ≡ err e)
        × ((got : Result IoError TcpStream) (later : List Arrival)
            → (accept peer_addr (failures (e ∷ es) ++ (direct got ∷ later)) s).0
              ≡ (accept peer_addr (direct got ∷ later) s).0)
  unfolding accept give_up_relay or_else unwrap_or
  accept_fallback e es s l r alive listens set unset = (
    ap (λ x. x.0) failed_out ∙ ap (λ x. err (unwrap_or (or_else x (some e)) elapsed)) unset,
    λ got later.
        ap (λ x. x.0) (first (failures es ++ (direct got ∷ later)))
        ∙ ap (λ x. x.0) (accept-failures es (direct got ∷ later) (give_up_relay e s) refl)
        ∙ ap (λ x. x.0) (accept-direct got later (give_up_relay e s) l listens)
        ∙ sym (ap (λ x. x.0) (accept-direct got later s l listens)),
  )
    where
      elapsed : Error
      elapsed = network (timeout s.options.rendezvous_timeout)

      first :
          (later : List Arrival)
          → accept peer_addr (relayed (err e) ∷ later) s
            ≡ accept peer_addr later (give_up_relay e s)
      first later = accept_first e later s l r alive listens set

      failed_out : accept peer_addr (failures (e ∷ es)) s ≡ accept peer_addr [] (give_up_relay e s)
      failed_out =
          first (failures es)
          ∙ ap (λ a. accept peer_addr a (give_up_relay e s)) (sym (append-nil (failures es)))
          ∙ accept-failures es [] (give_up_relay e s) refl
