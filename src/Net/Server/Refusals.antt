-- ===== src/Net/Server/Refusals.antt =====
-- net/server.rs: a new client never takes a room away from another one.
use rusp.Prelude.{
  ℕ, ◌≡◌, refl, sym, ap, ◌∙◌, Bool-cases, inl, inr, Option, none, some, List, length, get_elem?,
  leb, Result, ok, err,
}
use rusp.Error.{Error, Text, CodeError}
use rusp.Code.{RoomId}
use rusp.Net.Relay.{Join, RefusalReason}
use rusp.Net.Server.Rooms.{get, insert, get-insert, get-insert_ne}
use rusp.Net.Server.Pairing.{some-injective, Text-cases}
use rusp.Net.Server.{
  Room, Shared, waiting, paired, greeting, presents, moves, claim, claim_entry, set_task,
  count_refused, claimed, enter, admit, serve, move, step,
}

-- What may become of the entry of a room when a client arrives: it stays, or the waiting client of
-- the room is paired.
pub data Kept (x : Room) (after : Option Room) : Type 0 where
  same : after ≡ some x → Kept x after
  taken : (w : ℕ) → x ≡ waiting w → after ≡ some paired → Kept x after

claim_entry-Kept :
    (s : Shared) (c : ℕ) (k j : Text) (x : Room) (o : Option Room)
    → get k s.rooms ≡ o
    → get j s.rooms ≡ some x
    → Kept x (get j (claimed c k (claim_entry s c k o)).rooms)
unfolding claim_entry claimed set_task count_refused
claim_entry-Kept s c k j x (some paired) e there = same there
claim_entry-Kept s c k j x (some (waiting w)) e there = elim (Text-cases j k) [
  | inl own ↦
      taken w (some-injective (sym there ∙ ap (λ q. get q s.rooms) own ∙ e))
        (ap (λ q. get q (insert k paired s.rooms)) own ∙ get-insert k paired s.rooms)
  | inr other ↦ same (get-insert_ne k j paired s.rooms other ∙ there)
]
claim_entry-Kept s c k j x none e there = elim (Bool-cases (leb s.max_rooms (length s.rooms))) [
  | inl full ↦ rw full (same there)
  | inr free ↦ rw free (elim (Text-cases j k) [
    | inl own ↦ cc (e, ap (λ q. get q s.rooms) own, there)
    | inr other ↦ same (get-insert_ne k j (waiting c) s.rooms other ∙ there)
  ])
]

enter-Kept :
    (s : Shared) (c : ℕ) (r : Result (RefusalReason × Text) RoomId) (j : Text) (x : Room)
    → get j s.rooms ≡ some x
    → Kept x (get j (enter s c r).rooms)
unfolding enter claim set_task count_refused
enter-Kept s c (ok room) j x there =
    claim_entry-Kept s c room.as_str j x (get room.as_str s.rooms) refl there
enter-Kept s c (err e) j x there = same there

module _ (hash : List ℕ → List ℕ) (display : CodeError → Text) where
  -- Whatever a new client presents, every room that was there is still there, with the same entry,
  -- or its waiting client has been paired.
  pub step-Kept :
      (s : Shared) (c : ℕ) (join : Result Error Join) (j : Text) (x : Room)
      → get_elem? s.tasks c ≡ some greeting
      → get j s.rooms ≡ some x
      → Kept x (get j (step hash display s (moves c (presents join))).rooms)
  unfolding step move serve set_task
  step-Kept s c (ok join) j x found there =
      rw found (enter-Kept s c (admit hash display s.token join) j x there)
  step-Kept s c (err e) j x found there = rw found (same there)
