-- ===== src/Net/Server/Capacity.antt =====
-- net/server.rs: how many rooms a relay holds at most.
use rusp.Prelude.{
  ℕ, ◌≤◌, max, ◌≡◌, refl, Bool-cases, inl, inr, Option, none, some, List, [], ◌∷◌, length,
  get_elem?, leb, ltb, Result, ok, err, arith,
}
use rusp.Error.{Text, CodeError}
use rusp.Code.{RoomId}
use rusp.Net.Relay.{RefusalReason}
use rusp.Net.Server.Rooms.{get, insert, length-remove_le, length-remove_taken}
use rusp.Net.Server.{
  RelaySettings, Room, Task, Shared, Event, Move, waiting, paired, greeting, in_room, handing,
  offered, joined, leaving, cleaning, presents, sends, breaks, leaves, picks_up, tidies, accepts,
  moves, bind, claim, claim_entry, set_task, count_accepted, count_paired, count_refused,
  count_running, max_pending_handshakes, accept, tidy, hand_over, claimed, enter, admit, serve,
  move, step, run,
}

-- The limit stays as it was bound, and the rooms within it.
abbrev Within : ℕ → Shared → Type 0
Within n s = (s.max_rooms ≡ n) × (length s.rooms ≤ n)

module _ (n : ℕ) where
  claim_entry-Within :
      (s : Shared) (c : ℕ) (k : Text) (o : Option Room)
      → get k s.rooms ≡ o
      → Within n s
      → Within n (claimed c k (claim_entry s c k o))
  unfolding claim_entry claimed set_task count_refused insert
  claim_entry-Within s c k (some paired) e h = h
  claim_entry-Within s c k (some (waiting w)) e h =
      (h.0, omega (arith, h.1, length-remove_taken k (waiting w) s.rooms e))
  claim_entry-Within s c k none e h = elim (Bool-cases (leb s.max_rooms (length s.rooms))) [
    | inl full ↦ rw full h
    | inr free ↦ rw free (h.0, ground (arith, h.0, length-remove_le k s.rooms))
  ]

  hand_over-Within :
      (s : Shared) (c : ℕ) (k : Text) (w : ℕ) (o : Option Task)
      → Within n s
      → Within n (hand_over s c k w o)
  unfolding hand_over set_task
  hand_over-Within s c k w (some (in_room own)) h = h
  hand_over-Within s c k w o h = h

  module _ (hash : List ℕ → List ℕ) (display : CodeError → Text) where
    serve-Within :
        (s : Shared) (c : ℕ) (join : Result (RefusalReason × Text) RoomId)
        → Within n s
        → Within n (enter s c join)
    unfolding enter claim set_task count_refused
    serve-Within s c (ok room) h =
        claim_entry-Within s c room.as_str (get room.as_str s.rooms) refl h
    serve-Within s c (err e) h = h

    move-Within :
        (s : Shared) (c : ℕ) (o : Option Task) (m : Move)
        → Within n s
        → Within n (move hash display s c o m)
    unfolding move serve set_task count_paired tidy
    move-Within s c (some greeting) (presents (ok join)) h =
        serve-Within s c (admit hash display s.token join) h
    move-Within s c (some greeting) (presents (err x)) h = h
    move-Within s c (some (handing k w)) sends h = hand_over-Within s c k w (get_elem? s.tasks w) h
    move-Within s c (some (handing k w)) breaks h = h
    move-Within s c (some (in_room k)) leaves h = h
    move-Within s c (some (offered k d)) leaves h = h
    move-Within s c (some (offered k d)) picks_up h = h
    move-Within s c (some (joined k d)) leaves h = h
    move-Within s c (some (leaving k)) tidies h =
        (h.0, omega (arith, h.1, length-remove_le k s.rooms))
    move-Within s c (some (cleaning k)) tidies h =
        (h.0, omega (arith, h.1, length-remove_le k s.rooms))
    move-Within s c o m h = h

    accept-Within : (s : Shared) → Within n s → Within n (accept s)
    unfolding accept count_accepted count_refused
    accept-Within s h = elim (Bool-cases (ltb (count_running s.tasks) max_pending_handshakes)) [
      | inl permit ↦ rw permit h
      | inr full ↦ rw full h
    ]

    run-Within : (s : Shared) (es : List Event) → Within n s → Within n (run hash display s es)
    unfolding run step
    run-Within s [] h = h
    run-Within s (accepts ∷ es) h = run-Within (accept s) es (accept-Within s h)
    run-Within s (moves c m ∷ es) h =
        run-Within (move hash display s c (get_elem? s.tasks c) m) es
          (move-Within s c (get_elem? s.tasks c) m h)

-- A relay never holds more rooms than its limit, and a limit of zero counts as one.
pub length-run_le :
    (hash : List ℕ → List ℕ) (display : CodeError → Text) (settings : RelaySettings)
    (es : List Event)
    → length (run hash display (bind settings) es).rooms ≤ max settings.max_rooms 1
unfolding bind
length-run_le hash display settings es =
    (run-Within (max settings.max_rooms 1) hash display (bind settings) es (refl, omega arith)).1
