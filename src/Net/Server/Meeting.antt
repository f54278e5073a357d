-- ===== src/Net/Server/Meeting.antt =====
-- net/server.rs: whatever the clients do, and in whatever order the tasks move on.
use rusp.Prelude.{
  ℕ, ◌≡◌, ◌≢◌, refl, sym, ap, ◌∙◌, Bool-cases, inl, inr, Option, none, some, List, [], ◌∷◌, ◌++◌,
  length, get_elem?, leb, ltb, subst, Result, ok, err,
}
use rusp.Error.{Text, CodeError}
use rusp.Code.{RoomId}
use rusp.Net.Relay.{RefusalReason}
use rusp.Net.Server.Rooms.{get, insert, remove}
use rusp.Net.Server.Pairing.{
  some-injective, get-append, get-append_one, get-set_at_ne, get-set_at, InRoom, Registered,
  IsPaired, partner_of, IsPaired-set_task, remove-IsPaired, insert-IsPaired, IsPaired-metrics,
}
use rusp.Net.Server.{
  RelaySettings, Room, Task, Shared, Event, Move, waiting, paired, greeting, in_room, handing,
  offered, joined, leaving, cleaning, given, ended, presents, sends, breaks, leaves, picks_up,
  tidies, accepts, moves, bind, claim, claim_entry, set_at, set_task, count_accepted, count_paired,
  count_refused, count_running, max_pending_handshakes, accept, tidy, hand_over, claimed, enter,
  admit, serve, move, step, run,
}

-- A running task without a room ends, or takes one up.
module _ (s : Shared) (c : ℕ) (h : IsPaired s) where
  end_greeting : get_elem? s.tasks c ≡ some greeting → IsPaired (set_task c ended (count_refused s))
  unfolding set_task count_refused partner_of
  end_greeting found = IsPaired-metrics (set_task c ended s) _ refl refl (
      IsPaired-set_task s c greeting ended h found (λ r e. tt) (λ r w e. cc) (λ r w e. cc)
        (λ r d e. cc))

  serve_broken : get_elem? s.tasks c ≡ some greeting → IsPaired (set_task c ended s)
  unfolding partner_of
  serve_broken found =
      IsPaired-set_task s c greeting ended h found (λ r e. tt) (λ r w e. cc) (λ r w e. cc)
        (λ r d e. cc)

  -- The second client of a room takes the waiting task's sender.
  take_waiting :
      (k : Text) (w : ℕ)
      → get_elem? s.tasks c ≡ some greeting
      → Registered s k w
      → IsPaired (set_task c (handing k w) (record s { rooms = insert k paired s.rooms }))
  unfolding partner_of
  take_waiting k w found there =
      IsPaired-set_task (record s { rooms = insert k paired s.rooms }) c greeting (handing k w)
        (insert-IsPaired s k paired h (λ v e. cc)) found (λ r e. absurd e) (λ r v e. cc)
        (λ r v e. handed r v (ap room_of e) (ap waiter_of e)) (λ r d e. cc)
    where
      room_of : Task → Text
      room_of (handing r _) = r
      room_of _ = k

      waiter_of : Task → ℕ
      waiter_of (handing _ v) = v
      waiter_of _ = w

      handed : (r : Text) (v : ℕ) → k ≡ r → w ≡ v → Registered s r v
      handed r v same_room same_waiter = rw (← same_room, ← same_waiter) there

  -- The first client of a room waits there.
  wait_first :
      (k : Text)
      → get_elem? s.tasks c ≡ some greeting
      → IsPaired (set_task c (in_room k) (record s { rooms = insert k (waiting c) s.rooms }))
  unfolding set_task partner_of
  wait_first k found =
      insert-IsPaired (set_task c (in_room k) s) k (waiting c)
        (IsPaired-set_task s c greeting (in_room k) h found (λ r e. absurd e) (λ r w e. cc)
          (λ r w e. cc) (λ r d e. cc))
        (λ w e. (
          in_room k,
          ap (get_elem? (set_at c (in_room k) s.tasks)) (sym (waiter_same w e))
              ∙ get-set_at c (in_room k) greeting s.tasks found,
          refl,
        ))
    where
      waiter_same : (w : ℕ) → waiting c ≡ waiting w → c ≡ w
      waiter_same w e = cc

  claim_lem :
      (k : Text)
      → get_elem? s.tasks c ≡ some greeting
      → (o : Option Room) → get k s.rooms ≡ o
      → IsPaired (claimed c k (claim_entry s c k o))
  unfolding claimed claim_entry
  claim_lem k found none e = elim (Bool-cases (leb s.max_rooms (length s.rooms))) [
    | inl full ↦ rw full (end_greeting found)
    | inr free ↦ rw free (wait_first k found)
  ]
  claim_lem k found (some (waiting w)) e = take_waiting k w found (h.waits k w e)
  claim_lem k found (some paired) e = end_greeting found

  enter_lem :
      (r : Result (RefusalReason × Text) RoomId)
      → get_elem? s.tasks c ≡ some greeting
      → IsPaired (enter s c r)
  unfolding enter claim
  enter_lem (ok room) found = claim_lem room.as_str found (get room.as_str s.rooms) refl
  enter_lem (err e) found = end_greeting found

  clean_lem :
      (k : Text) (w : ℕ)
      → get_elem? s.tasks c ≡ some (handing k w)
      → IsPaired (set_task c (cleaning k) s)
  unfolding partner_of
  clean_lem k w found =
      IsPaired-set_task s c (handing k w) (cleaning k) h found (λ r e. absurd e) (λ r v e. cc)
        (λ r v e. cc) (λ r d e. cc)

  -- The waiting task is still there: it gets the stream.
  give_lem :
      (k : Text) (w : ℕ) (own : Text)
      → get_elem? s.tasks c ≡ some (handing k w)
      → get_elem? s.tasks w ≡ some (in_room own)
      → IsPaired (set_task w (offered own c) (set_task c (given k w) s))
  unfolding set_task partner_of
  give_lem k w own found waits =
      IsPaired-set_task (set_task c (given k w) s) w (in_room own) (offered own c)
        (IsPaired-set_task s c (handing k w) (given k w) h found (λ r e. absurd e) (λ r v e. cc)
          (λ r v e. cc) (λ r d e. cc))
        (get-set_at_ne c w (given k w) s.tasks
            (λ same. cc (found, ap (get_elem? s.tasks) same, waits))
          ∙ waits)
        (λ r e. e) (λ r v e. cc) (λ r v e. cc)
        (λ r d e. handed r d (ap room_of e) (ap partner_in e))
    where
      room_of : Option (Text × ℕ) → Text
      room_of none = own
      room_of (some p) = p.0

      partner_in : Option (Text × ℕ) → ℕ
      partner_in none = c
      partner_in (some p) = p.1

      same_room : own ≡ k
      same_room =
          let (t, at_w, inside) = h.hands c k w found in
          subst (InRoom k) (some-injective (sym at_w ∙ waits)) inside

      handed :
          (r : Text) (d : ℕ)
          → own ≡ r
          → c ≡ d
          → get_elem? (set_at c (given k w) s.tasks) d ≡ some (given r w)
      handed r d e_room e_partner =
          ap (get_elem? (set_at c (given k w) s.tasks)) (sym e_partner)
          ∙ get-set_at c (given k w) (handing k w) s.tasks found
          ∙ ap (λ q. some (given q w)) (sym same_room ∙ e_room)

  -- The hand-over, from a task that holds the sender of task `w`.
  hand_over_lem :
      (k : Text) (w : ℕ) (o : Option Task)
      → get_elem? s.tasks c ≡ some (handing k w)
      → get_elem? s.tasks w ≡ o
      → IsPaired (hand_over s c k w o)
  unfolding hand_over
  hand_over_lem k w (some (in_room own)) found e = give_lem k w own found e
  hand_over_lem k w o found e = clean_lem k w found

  break_lem :
      (k : Text) (w : ℕ) → get_elem? s.tasks c ≡ some (handing k w) → IsPaired (set_task c ended s)
  unfolding partner_of
  break_lem k w found =
      IsPaired-set_task s c (handing k w) ended h found (λ r e. absurd e) (λ r v e. cc)
        (λ r v e. cc) (λ r d e. cc)

  join_lem :
      (k : Text) (d : ℕ)
      → get_elem? s.tasks c ≡ some (offered k d)
      → IsPaired (set_task c (joined k d) (count_paired s))
  unfolding set_task count_paired partner_of
  join_lem k d found = IsPaired-metrics (set_task c (joined k d) s) _ refl refl (
      IsPaired-set_task s c (offered k d) (joined k d) h found (λ r e. e) (λ r v e. cc)
        (λ r v e. cc) (λ r b e. h.pairs c (offered k d) r b found e))

  leave_lem :
      (old : Task) (k : Text)
      → get_elem? s.tasks c ≡ some old
      → ((r : Text) → InRoom r old → k ≡ r)
      → ((r : Text) (w : ℕ) → old ≢ given r w)
      → IsPaired (set_task c (leaving k) s)
  unfolding partner_of
  leave_lem old k found same running =
      IsPaired-set_task s c old (leaving k) h found same running (λ r w e. cc) (λ r d e. cc)

  tidy_lem :
      (old : Task) (k : Text)
      → get_elem? s.tasks c ≡ some old
      → ((r : Text) (w : ℕ) → old ≢ given r w)
      → IsPaired (tidy c k s)
  unfolding tidy partner_of
  tidy_lem old k found running =
      IsPaired-set_task (record s { rooms = remove k s.rooms }) c old ended (remove-IsPaired s k h)
        found (λ r e. tt) running (λ r w e. cc) (λ r d e. cc)

accept-IsPaired : (s : Shared) → IsPaired s → IsPaired (accept s)
unfolding accept count_accepted count_refused partner_of
accept-IsPaired s h = elim (Bool-cases (ltb (count_running s.tasks) max_pending_handshakes)) [
  | inl permit ↦ rw permit (record {
    distinct = h.distinct;
    waits = λ r w e. kept r w (h.waits r w e);
    hands = λ c r w e. elim (get-append_one s.tasks greeting c (handing r w) e) [
      | inl before ↦ kept r w (h.hands c r w before)
      | inr new ↦ cc
    ];
    pairs = λ w t r d e p. elim (get-append_one s.tasks greeting w t e) [
      | inl before ↦ get-append s.tasks (greeting ∷ []) d (given r w) (h.pairs w t r d before p)
      | inr new ↦ cc (ap partner_of new, p)
    ];
  })
  | inr full ↦ rw full (IsPaired-metrics s _ refl refl h)
]
  where
    kept :
        (r : Text) (w : ℕ)
        → Registered s r w
        → (t : Task) × (get_elem? (s.tasks ++ (greeting ∷ [])) w ≡ some t) × InRoom r t
    kept r w (t, at_w, inside) = (t, get-append s.tasks (greeting ∷ []) w t at_w, inside)

module _ (hash : List ℕ → List ℕ) (display : CodeError → Text) where
  move-IsPaired :
      (s : Shared) (c : ℕ) (o : Option Task) (m : Move)
      → IsPaired s
      → get_elem? s.tasks c ≡ o
      → IsPaired (move hash display s c o m)
  unfolding move serve
  move-IsPaired s c (some greeting) (presents (ok join)) h e =
      enter_lem s c h (admit hash display s.token join) e
  move-IsPaired s c (some greeting) (presents (err x)) h e = serve_broken s c h e
  move-IsPaired s c (some (handing k w)) sends h e =
      hand_over_lem s c h k w (get_elem? s.tasks w) e refl
  move-IsPaired s c (some (handing k w)) breaks h e = break_lem s c h k w e
  move-IsPaired s c (some (in_room k)) leaves h e =
      leave_lem s c h (in_room k) k e (λ r p. p) (λ r v q. cc)
  move-IsPaired s c (some (offered k d)) leaves h e =
      leave_lem s c h (offered k d) k e (λ r p. p) (λ r v q. cc)
  move-IsPaired s c (some (offered k d)) picks_up h e = join_lem s c h k d e
  move-IsPaired s c (some (joined k d)) leaves h e =
      leave_lem s c h (joined k d) k e (λ r p. p) (λ r v q. cc)
  move-IsPaired s c (some (leaving k)) tidies h e = tidy_lem s c h (leaving k) k e (λ r v q. cc)
  move-IsPaired s c (some (cleaning k)) tidies h e = tidy_lem s c h (cleaning k) k e (λ r v q. cc)
  move-IsPaired s c o m h e = h

  pub run-IsPaired : (s : Shared) (es : List Event) → IsPaired s → IsPaired (run hash display s es)
  unfolding run step
  run-IsPaired s [] h = h
  run-IsPaired s (accepts ∷ es) h = run-IsPaired (accept s) es (accept-IsPaired s h)
  run-IsPaired s (moves c m ∷ es) h =
      run-IsPaired (move hash display s c (get_elem? s.tasks c) m) es
        (move-IsPaired s c (get_elem? s.tasks c) m h refl)

  pub bind-IsPaired : (settings : RelaySettings) → IsPaired (bind settings)
  unfolding bind get
  bind-IsPaired settings = record {
    distinct = tt;
    waits = λ r w e. cc;
    hands = λ c r w e. cc;
    pairs = λ w t r d e p. cc;
  }

  -- Two clients that the relay has joined with one and the same client are one client, and the other
  -- one gave its stream to it for the same room; whatever the clients do and however the tasks take
  -- turns.
  pub run_paired :
      (settings : RelaySettings) (es : List Event) (w v d : ℕ) (r q : Text)
      → get_elem? (run hash display (bind settings) es).tasks w ≡ some (joined r d)
      → get_elem? (run hash display (bind settings) es).tasks v ≡ some (joined q d)
      → (get_elem? (run hash display (bind settings) es).tasks d ≡ some (given r w)) × (v ≡ w)
  unfolding partner_of
  run_paired settings es w v d r q e other =
      let sound = run-IsPaired (bind settings) es (bind-IsPaired settings) in
      let gave = sound.pairs w (joined r d) r d e refl in
      (gave, giver (some-injective (sym (sound.pairs v (joined q d) q d other refl) ∙ gave)))
    where
      giver : {q p : Text} {v u : ℕ} → given q v ≡ given p u → v ≡ u
      giver same = cc
