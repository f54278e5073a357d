-- ===== src/Net/Server/Pairing.antt =====
-- net/server.rs: the relay puts two clients together only when they named the same room.
use rusp.Prelude.{
  ℕ, zero, suc, ◌≡◌, ◌≢◌, ◌⊎◌, inl, inr, refl, sym, ap, ◌∙◌, Bool-cases, Option, none, some, List,
  [], ◌∷◌, ◌++◌, get_elem?, ◌==◌, ==_iff, Distinct, text_eq, text_eq→eq, text_eq_refl, subst,
}
use rusp.Error.{Text}
use rusp.Net.Server.Rooms.{
  names, get, insert, remove, get-insert, get-insert_ne, get-remove, get-remove_ne, insert-Distinct,
  remove-Distinct,
}
use rusp.Net.Server.{
  Room, Task, Shared, waiting, in_room, handing, offered, joined, leaving, given, ended, set_at,
  set_task,
}

pub some-injective : {A : Type 0} {a b : A} → some a ≡ some b → a ≡ b
some-injective h = cc

module _ {A : Type 0} where
  pub get-set_at :
      (i : ℕ) (a b : A) (xs : List A)
      → get_elem? xs i ≡ some b
      → get_elem? (set_at i a xs) i ≡ some a
  unfolding set_at
  get-set_at i a b [] h = cc
  get-set_at zero a b (x ∷ xs) h = refl
  get-set_at (suc i) a b (x ∷ xs) h = get-set_at i a b xs h

  pub get-set_at_ne :
      (i j : ℕ) (a : A) (xs : List A) → j ≢ i → get_elem? (set_at i a xs) j ≡ get_elem? xs j
  unfolding set_at
  get-set_at_ne i j a [] h = refl
  get-set_at_ne zero zero a (x ∷ xs) h = absurd (h refl)
  get-set_at_ne zero (suc j) a (x ∷ xs) h = refl
  get-set_at_ne (suc i) zero a (x ∷ xs) h = refl
  get-set_at_ne (suc i) (suc j) a (x ∷ xs) h = get-set_at_ne i j a xs (λ e. h (ap suc e))

  pub get-append :
      (xs ys : List A) (i : ℕ) (a : A) → get_elem? xs i ≡ some a → get_elem? (xs ++ ys) i ≡ some a
  get-append [] ys i a h = cc
  get-append (x ∷ xs) ys zero a h = h
  get-append (x ∷ xs) ys (suc i) a h = get-append xs ys i a h

  pub get-append_one :
      (xs : List A) (b : A) (i : ℕ) (a : A)
      → get_elem? (xs ++ (b ∷ [])) i ≡ some a
      → (get_elem? xs i ≡ some a) ⊎ (a ≡ b)
  get-append_one [] b zero a h = inr (some-injective (sym h))
  get-append_one [] b (suc i) a h = cc
  get-append_one (x ∷ xs) b zero a h = inl h
  get-append_one (x ∷ xs) b (suc i) a h = get-append_one xs b i a h

pub ℕ-cases : (a b : ℕ) → (a ≡ b) ⊎ (a ≢ b)
ℕ-cases a b = elim (Bool-cases (a == b)) [
  | inl same ↦ inl ((==_iff a b).0 same)
  | inr other ↦ inr (λ e. cc ((==_iff a b).1 e, other))
]

pub Text-cases : (a b : Text) → (a ≡ b) ⊎ (a ≢ b)
Text-cases a b = elim (Bool-cases (text_eq a b)) [
  | inl same ↦ inl (text_eq→eq a b same)
  | inr other ↦ inr (λ e. cc (other, ap (text_eq a) e, text_eq_refl a))
]

-- A task that once registered in the room, or has ended; it stays one.
abbrev pub InRoom : Text → Task → Type 0
InRoom r (in_room q) = q ≡ r
InRoom r (offered q _) = q ≡ r
InRoom r (joined q _) = q ≡ r
InRoom r (leaving q) = q ≡ r
InRoom r ended = Unit
InRoom r _ = ⊥

abbrev pub Registered : Shared → Text → ℕ → Type 0
Registered s r w = (t : Task) × (get_elem? s.tasks w ≡ some t) × InRoom r t

-- Whose stream a task holds, and for which room.
unfoldable pub partner_of : Task → Option (Text × ℕ)
partner_of (offered r d) = some (r, d)
partner_of (joined r d) = some (r, d)
partner_of _ = none

pub record IsPaired (s : Shared) : Type 0 where
  pub distinct : Distinct (names s.rooms)
  pub waits : (r : Text) (w : ℕ) → get r s.rooms ≡ some (waiting w) → Registered s r w
  pub hands :
      (c : ℕ) (r : Text) (w : ℕ) → get_elem? s.tasks c ≡ some (handing r w) → Registered s r w
  pub pairs :
      (w : ℕ) (t : Task) (r : Text) (d : ℕ)
      → get_elem? s.tasks w ≡ some t
      → partner_of t ≡ some (r, d)
      → get_elem? s.tasks d ≡ some (given r w)

-- One task moves on, the rooms stay.
Registered-set_task :
    (s : Shared) (c : ℕ) (old new : Task)
    → get_elem? s.tasks c ≡ some old
    → ((r : Text) → InRoom r old → InRoom r new)
    → (r : Text) (w : ℕ) → Registered s r w
    → Registered (set_task c new s) r w
unfolding set_task
Registered-set_task s c old new found keeps r w (t, at_w, inside) = elim (ℕ-cases w c) [
  | inl same ↦ (
    new,
    ap (get_elem? (set_at c new s.tasks)) same ∙ get-set_at c new old s.tasks found,
    keeps r
        (subst (InRoom r) (some-injective (sym at_w ∙ ap (get_elem? s.tasks) same ∙ found)) inside),
  )
  | inr other ↦ (t, get-set_at_ne c w new s.tasks other ∙ at_w, inside)
]

pub IsPaired-set_task :
    (s : Shared) (c : ℕ) (old new : Task)
    → IsPaired s
    → get_elem? s.tasks c ≡ some old
    → ((r : Text) → InRoom r old → InRoom r new)
    → ((r : Text) (w : ℕ) → old ≢ given r w)
    → ((r : Text) (w : ℕ) → new ≡ handing r w → Registered s r w)
    → ((r : Text) (d : ℕ) → partner_of new ≡ some (r, d) → get_elem? s.tasks d ≡ some (given r c))
    → IsPaired (set_task c new s)
unfolding set_task
IsPaired-set_task s c old new h found keeps running hands pairs = record {
  distinct = h.distinct;
  waits = λ r w e. Registered-set_task s c old new found keeps r w (h.waits r w e);
  hands = λ b r w e. Registered-set_task s c old new found keeps r w (handed b r w e);
  pairs = λ w t r d e p. kept r w d (paired_before w t r d e p);
}
  where
    tasks : List Task
    tasks = set_at c new s.tasks

    at_c : get_elem? tasks c ≡ some new
    at_c = get-set_at c new old s.tasks found

    handed : (b : ℕ) (r : Text) (w : ℕ) → get_elem? tasks b ≡ some (handing r w) → Registered s r w
    handed b r w e = elim (ℕ-cases b c) [
      | inl same ↦ hands r w (some-injective (sym at_c ∙ ap (get_elem? tasks) (sym same) ∙ e))
      | inr other ↦ h.hands b r w (sym (get-set_at_ne c b new s.tasks other) ∙ e)
    ]

    paired_before :
        (w : ℕ) (t : Task) (r : Text) (d : ℕ)
        → get_elem? tasks w ≡ some t
        → partner_of t ≡ some (r, d)
        → get_elem? s.tasks d ≡ some (given r w)
    paired_before w t r d e p = elim (ℕ-cases w c) [
      | inl same ↦
          pairs r d
            (ap partner_of (some-injective (sym at_c ∙ ap (get_elem? tasks) (sym same) ∙ e)) ∙ p)
          ∙ ap (λ k. some (given r k)) (sym same)
      | inr other ↦ h.pairs w t r d (sym (get-set_at_ne c w new s.tasks other) ∙ e) p
    ]

    kept :
        (r : Text) (w d : ℕ)
        → get_elem? s.tasks d ≡ some (given r w)
        → get_elem? tasks d ≡ some (given r w)
    kept r w d e = elim (ℕ-cases d c) [
      | inl same ↦
          absurd (running r w (some-injective (sym found ∙ ap (get_elem? s.tasks) (sym same) ∙ e)))
      | inr other ↦ get-set_at_ne c d new s.tasks other ∙ e
    ]

-- The rooms change, the tasks stay.
IsPaired-rooms :
    (s : Shared) (l : List (Text × Room))
    → IsPaired s
    → Distinct (names l)
    → ((r : Text) (w : ℕ) → get r l ≡ some (waiting w) → Registered s r w)
    → IsPaired (record s { rooms = l })
IsPaired-rooms s l h distinct waits = record {
  distinct = distinct;
  waits = waits;
  hands = h.hands;
  pairs = h.pairs;
}

pub remove-IsPaired :
    (s : Shared) (k : Text) → IsPaired s → IsPaired (record s { rooms = remove k s.rooms })
remove-IsPaired s k h =
    IsPaired-rooms s (remove k s.rooms) h (remove-Distinct k s.rooms h.distinct) (λ r w e.
      elim (Text-cases r k) [
        | inl same ↦ cc (get-remove k s.rooms, ap (λ j. get j (remove k s.rooms)) same, e)
        | inr other ↦ h.waits r w (sym (get-remove_ne k r s.rooms other) ∙ e)
      ])

pub insert-IsPaired :
    (s : Shared) (k : Text) (x : Room)
    → IsPaired s
    → ((w : ℕ) → x ≡ waiting w → Registered s k w)
    → IsPaired (record s { rooms = insert k x s.rooms })
insert-IsPaired s k x h fresh =
    IsPaired-rooms s (insert k x s.rooms) h (insert-Distinct k x s.rooms h.distinct) (λ r w e.
      elim (Text-cases r k) [
        | inl same ↦
            subst (λ j. Registered s j w) (sym same)
              (fresh w (
                some-injective (
                  sym (get-insert k x s.rooms)
                  ∙ ap (λ j. get j (insert k x s.rooms)) (sym same)
                  ∙ e)))
        | inr other ↦ h.waits r w (sym (get-insert_ne k r x s.rooms other) ∙ e)
      ])

-- Counting leaves all of it as it was.
pub IsPaired-metrics :
    (s t : Shared) → t.rooms ≡ s.rooms → t.tasks ≡ s.tasks → IsPaired s → IsPaired t
IsPaired-metrics s t same_rooms same_tasks h = record {
  distinct = subst (λ l. Distinct (names l)) (sym same_rooms) h.distinct;
  waits = λ r w e.
      subst (λ l. (v : Task) × (get_elem? l w ≡ some v) × InRoom r v) (sym same_tasks)
        (h.waits r w (ap (get r) (sym same_rooms) ∙ e));
  hands = λ c r w e.
      subst (λ l. (v : Task) × (get_elem? l w ≡ some v) × InRoom r v) (sym same_tasks)
        (h.hands c r w (ap (λ l. get_elem? l c) (sym same_tasks) ∙ e));
  pairs = λ w t' r d e p.
      ap (λ l. get_elem? l d) same_tasks
      ∙ h.pairs w t' r d (ap (λ l. get_elem? l w) (sym same_tasks) ∙ e) p;
}
