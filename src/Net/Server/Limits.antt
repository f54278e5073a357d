-- ===== src/Net/Server/Limits.antt =====
-- net/server.rs: the semaphore of the relay caps its rooms.
use rusp.Prelude.{
  ℕ, suc, ◌≤◌, ◌≡◌, ◌≢◌, refl, ap, ◌∙◌, Bool-cases, true, inl, inr, Option, none, some, List, [],
  ◌∷◌, ◌++◌, max, length, get_elem?, leb, ltb, All, All-map, Result, ok, err, arith,
}
use rusp.Error.{Text, CodeError}
use rusp.Code.{RoomId}
use rusp.Net.Relay.{RefusalReason}
use rusp.Net.Server.Rooms.{names, get, insert, remove, remove-All, removed-All}
use rusp.Net.Server.Pairing.{get-append, get-set_at, get-set_at_ne}
use rusp.Net.Server.Meeting.{run-IsPaired, bind-IsPaired}
use rusp.Net.Server.Capacity.{length-run_le}
use rusp.Net.Server.Permits.{
  Registrar, Owner, length-owned, Owner-set_at, count_running-set_at, get-All,
}
use rusp.Net.Server.{
  RelaySettings, Room, Task, Shared, Event, Move, waiting, paired, greeting, in_room, handing,
  offered, joined, leaving, cleaning, given, ended, presents, sends, breaks, leaves, picks_up,
  tidies, accepts, moves, bind, claim, claim_entry, set_at, set_task, count_accepted, count_paired,
  count_refused, is_running, count_running, max_pending_handshakes, accept, tidy, hand_over,
  claimed, enter, admit, serve, move, step, run,
}

-- Each room has an owner, and the running tasks have their permits.
record IsOwned (s : Shared) : Type 0 where
  owned : All (Owner s.tasks) (names s.rooms)
  permits : count_running s.tasks ≤ max_pending_handshakes

IsOwned-set_task :
    (s : Shared) (c : ℕ) (old new : Task)
    → IsOwned s
    → get_elem? s.tasks c ≡ some old
    → is_running old ≡ true
    → ((k : Text) → Registrar k old → Registrar k new)
    → IsOwned (set_task c new s)
unfolding set_task
IsOwned-set_task s c old new h found running keeps = record {
  owned = All-map (λ k. Owner-set_at s.tasks c old new found k (keeps k)) (names s.rooms) h.owned;
  permits = omega (arith, count_running-set_at s.tasks c old new found running, h.permits);
}

module _ (s : Shared) (c : ℕ) (h : IsOwned s) where
  refused-IsOwned :
      get_elem? s.tasks c ≡ some greeting → IsOwned (set_task c ended (count_refused s))
  unfolding set_task count_refused is_running
  refused-IsOwned found =
      let o = IsOwned-set_task s c greeting ended h found refl (λ k r. absurd r) in
      record { owned = o.owned; permits = o.permits }

  claim-IsOwned :
      (k : Text) (o : Option Room)
      → get_elem? s.tasks c ≡ some greeting
      → get k s.rooms ≡ o
      → IsOwned (claimed c k (claim_entry s c k o))
  unfolding claimed claim_entry set_task is_running insert
  claim-IsOwned k (some paired) found e = refused-IsOwned found
  claim-IsOwned k (some (waiting w)) found e =
      let o = IsOwned-set_task s c greeting (handing k w) h found refl (λ j r. absurd r) in
      record {
        owned = (
          get-All (Owner (set_at c (handing k w) s.tasks)) k (waiting w) s.rooms e o.owned,
          remove-All (Owner (set_at c (handing k w) s.tasks)) k s.rooms o.owned,
        );
        permits = o.permits;
      }
  claim-IsOwned k none found e = elim (Bool-cases (leb s.max_rooms (length s.rooms))) [
    | inl full ↦ rw full (refused-IsOwned found)
    | inr free ↦ rw free (
        let o = IsOwned-set_task s c greeting (in_room k) h found refl (λ j r. absurd r) in
        record {
          owned = (
            (c, in_room k, get-set_at c (in_room k) greeting s.tasks found, refl),
            remove-All (Owner (set_at c (in_room k) s.tasks)) k s.rooms o.owned,
          );
          permits = o.permits;
        })
  ]

  enter-IsOwned :
      (r : Result (RefusalReason × Text) RoomId)
      → get_elem? s.tasks c ≡ some greeting
      → IsOwned (enter s c r)
  unfolding enter claim
  enter-IsOwned (ok room) found = claim-IsOwned room.as_str (get room.as_str s.rooms) found refl
  enter-IsOwned (err e) found = refused-IsOwned found

  cleaning-IsOwned :
      (k : Text) (w : ℕ)
      → get_elem? s.tasks c ≡ some (handing k w)
      → IsOwned (set_task c (cleaning k) s)
  unfolding is_running
  cleaning-IsOwned k w found =
      IsOwned-set_task s c (handing k w) (cleaning k) h found refl (λ j r. absurd r)

  hand_over-IsOwned :
      (k : Text) (w : ℕ) (o : Option Task)
      → get_elem? s.tasks c ≡ some (handing k w)
      → get_elem? s.tasks w ≡ o
      → IsOwned (hand_over s c k w o)
  unfolding hand_over is_running set_task
  hand_over-IsOwned k w (some (in_room own)) found e =
      IsOwned-set_task (set_task c (given k w) s) w (in_room own) (offered own c)
        (IsOwned-set_task s c (handing k w) (given k w) h found refl (λ j r. absurd r))
        (get-set_at_ne c w (given k w) s.tasks (λ same. cc (found, ap (get_elem? s.tasks) same, e))
          ∙ e)
        refl (λ j r. r)
  hand_over-IsOwned k w o found e = cleaning-IsOwned k w found

  -- A task gives up the room that it registered.
  tidy-IsOwned :
      (k : Text) (old : Task)
      → get_elem? s.tasks c ≡ some old
      → is_running old ≡ true
      → ((j : Text) → Registrar j old → k ≡ j)
      → IsOwned (tidy c k s)
  unfolding tidy set_task
  tidy-IsOwned k old found running own = record {
    owned =
        both (names (remove k s.rooms)) (removed-All k s.rooms)
          (remove-All (Owner s.tasks) k s.rooms h.owned);
    permits = omega (arith, count_running-set_at s.tasks c old ended found running, h.permits);
  }
    where
      both :
          (js : List Text)
          → All (λ j. k ≢ j) js
          → All (Owner s.tasks) js
          → All (Owner (set_at c ended s.tasks)) js
      both [] f g = tt
      both (j ∷ js) (ne, f) (o, g) =
          (Owner-set_at s.tasks c old ended found j (λ r. absurd (ne (own j r))) o, both js f g)

count_running-append :
    (ts : List Task) → count_running (ts ++ (greeting ∷ [])) ≡ suc (count_running ts)
unfolding count_running is_running
count_running-append [] = refl
count_running-append (t ∷ ts) = elim (Bool-cases (is_running t)) [
  | inl on ↦ rw on (ap suc (count_running-append ts))
  | inr off ↦ rw off (count_running-append ts)
]

accept-IsOwned : (s : Shared) → IsOwned s → IsOwned (accept s)
unfolding accept count_accepted count_refused
accept-IsOwned s h = elim (Bool-cases (ltb (count_running s.tasks) max_pending_handshakes)) [
  | inl permit ↦ rw permit (record {
    owned = All-map kept (names s.rooms) h.owned;
    permits = ground (arith, count_running-append s.tasks);
  })
  | inr full ↦ rw full (record { owned = h.owned; permits = h.permits })
]
  where
    kept : (k : Text) → Owner s.tasks k → Owner (s.tasks ++ (greeting ∷ [])) k
    kept k (w, t, at_w, mine) = (w, t, get-append s.tasks (greeting ∷ []) w t at_w, mine)

module _ (hash : List ℕ → List ℕ) (display : CodeError → Text) where
  move-IsOwned :
      (s : Shared) (c : ℕ) (o : Option Task) (m : Move)
      → IsOwned s
      → get_elem? s.tasks c ≡ o
      → IsOwned (move hash display s c o m)
  unfolding move serve is_running count_paired set_task
  move-IsOwned s c (some greeting) (presents (ok join)) h e =
      enter-IsOwned s c h (admit hash display s.token join) e
  move-IsOwned s c (some greeting) (presents (err x)) h e =
      IsOwned-set_task s c greeting ended h e refl (λ j r. absurd r)
  move-IsOwned s c (some (handing k w)) sends h e =
      hand_over-IsOwned s c h k w (get_elem? s.tasks w) e refl
  move-IsOwned s c (some (handing k w)) breaks h e =
      IsOwned-set_task s c (handing k w) ended h e refl (λ j r. absurd r)
  move-IsOwned s c (some (in_room k)) leaves h e =
      IsOwned-set_task s c (in_room k) (leaving k) h e refl (λ j r. r)
  move-IsOwned s c (some (offered k d)) leaves h e =
      IsOwned-set_task s c (offered k d) (leaving k) h e refl (λ j r. r)
  move-IsOwned s c (some (offered k d)) picks_up h e =
      let o = IsOwned-set_task s c (offered k d) (joined k d) h e refl (λ j r. r) in
      record { owned = o.owned; permits = o.permits }
  move-IsOwned s c (some (joined k d)) leaves h e =
      IsOwned-set_task s c (joined k d) (leaving k) h e refl (λ j r. r)
  move-IsOwned s c (some (leaving k)) tidies h e =
      tidy-IsOwned s c h k (leaving k) e refl (λ j r. r)
  move-IsOwned s c (some (cleaning k)) tidies h e =
      tidy-IsOwned s c h k (cleaning k) e refl (λ j r. absurd r)
  move-IsOwned s c o m h e = h

  run-IsOwned : (s : Shared) (es : List Event) → IsOwned s → IsOwned (run hash display s es)
  unfolding run step
  run-IsOwned s [] h = h
  run-IsOwned s (accepts ∷ es) h = run-IsOwned (accept s) es (accept-IsOwned s h)
  run-IsOwned s (moves c m ∷ es) h =
      run-IsOwned (move hash display s c (get_elem? s.tasks c) m) es
        (move-IsOwned s c (get_elem? s.tasks c) m h refl)

  -- A relay never holds more rooms than its limit, where a limit of zero counts as one, nor more
  -- than it has permits for handshakes, since a waiting client keeps its permit: a limit above 256
  -- rooms is never reached.
  pub length-run_permits :
      (settings : RelaySettings) (es : List Event)
      → (length (run hash display (bind settings) es).rooms ≤ max settings.max_rooms 1)
        × (length (run hash display (bind settings) es).rooms ≤ max_pending_handshakes)
  unfolding bind count_running
  length-run_permits settings es =
      let end = run-IsOwned (bind settings) es (record { owned = tt; permits = omega arith }) in
      let sound =
        run-IsPaired hash display (bind settings) es (bind-IsPaired hash display settings) in
      (
        length-run_le hash display settings es,
        omega
            (arith, length-owned (names _) _ sound.distinct end.owned, end.permits, length-names _),
      )
    where
      length-names : (l : List (Text × Room)) → length (names l) ≡ length l
      length-names [] = refl
      length-names (e ∷ l) = ap suc (length-names l)
