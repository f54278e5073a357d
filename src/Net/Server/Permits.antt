-- ===== src/Net/Server/Permits.antt =====
-- net/server.rs: a permit is held by a task until it ends, so the permits bound the rooms too.
use rusp.Prelude.{
  ℕ, zero, suc, ◌≤◌, ◌≡◌, ◌≢◌, refl, sym, ap, ◌∙◌, subst, true, Bool-cases, inl, inr, some, List,
  [], ◌∷◌, length, get_elem?, All, Distinct, if◌then◌else◌, text_eq, text_eq→eq, arith,
}
use rusp.Error.{Text}
use rusp.Net.Server.Rooms.{names, get}
use rusp.Net.Server.Pairing.{some-injective, ℕ-cases, get-set_at, get-set_at_ne}
use rusp.Net.Server.{
  Room, Task, in_room, offered, joined, leaving, ended, set_at, is_running, count_running,
}

-- The task that registered the room, and has not removed it yet.
abbrev pub Registrar : Text → Task → Type 0
Registrar k (in_room q) = q ≡ k
Registrar k (offered q _) = q ≡ k
Registrar k (joined q _) = q ≡ k
Registrar k (leaving q) = q ≡ k
Registrar k _ = ⊥

abbrev pub Owner : List Task → Text → Type 0
Owner ts k = (w : ℕ) × (t : Task) × (get_elem? ts w ≡ some t) × Registrar k t

Registrar-unique : (t : Task) (j k : Text) → Registrar j t → Registrar k t → j ≡ k
Registrar-unique (in_room q) j k h g = sym h ∙ g
Registrar-unique (offered q d) j k h g = sym h ∙ g
Registrar-unique (joined q d) j k h g = sym h ∙ g
Registrar-unique (leaving q) j k h g = sym h ∙ g
Registrar-unique t j k h g = absurd h

Registrar-is_running : (t : Task) (k : Text) → Registrar k t → is_running t ≡ true
unfolding is_running
Registrar-is_running (in_room q) k h = refl
Registrar-is_running (offered q d) k h = refl
Registrar-is_running (joined q d) k h = refl
Registrar-is_running (leaving q) k h = refl
Registrar-is_running t k h = absurd h

-- A running task that is replaced by one that has ended gives one permit back.
count_running-ended :
    (ts : List Task) (w : ℕ) (t : Task)
    → get_elem? ts w ≡ some t
    → is_running t ≡ true
    → suc (count_running (set_at w ended ts)) ≡ count_running ts
unfolding count_running set_at is_running
count_running-ended [] w t e r = cc
count_running-ended (x ∷ ts) zero t e r = rw (ap is_running (some-injective e) ∙ r) refl
count_running-ended (x ∷ ts) (suc w) t e r = elim (Bool-cases (is_running x)) [
  | inl on ↦ rw on (ap suc (count_running-ended ts w t e r))
  | inr off ↦ rw off (count_running-ended ts w t e r)
]

-- Rooms with different names have different owners.
pub length-owned :
    (ks : List Text) (ts : List Task)
    → Distinct ks
    → All (Owner ts) ks
    → length ks ≤ count_running ts
length-owned [] ts d h = omega arith
length-owned (k ∷ ks) ts (fresh, d) ((w, t, at_w, mine), h) = omega (
  arith,
  count_running-ended ts w t at_w (Registrar-is_running t k mine),
  length-owned ks (set_at w ended ts) d (others ks fresh h),
)
  where
    others :
        (js : List Text)
        → All (λ j. k ≢ j) js
        → All (Owner ts) js
        → All (Owner (set_at w ended ts)) js
    others [] f g = tt
    others (j ∷ js) (new, f) ((v, u, at_v, theirs), g) = (
      (
        v,
        u,
        get-set_at_ne w v ended ts (λ same. new (
              Registrar-unique t k j mine (
                subst (Registrar j) (some-injective (sym at_v ∙ ap (get_elem? ts) same ∙ at_w))
                  theirs)))
            ∙ at_v,
        theirs,
      ),
      others js f g,
    )

-- Another task in the place of one keeps the owners, when it is an owner of what the old one was.
pub Owner-set_at :
    (ts : List Task) (c : ℕ) (old new : Task)
    → get_elem? ts c ≡ some old
    → (k : Text) → (Registrar k old → Registrar k new)
    → Owner ts k
    → Owner (set_at c new ts) k
Owner-set_at ts c old new found k keeps (w, t, at_w, mine) = elim (ℕ-cases w c) [
  | inl same ↦ (
    c,
    new,
    get-set_at c new old ts found,
    keeps (subst (Registrar k) (some-injective (sym at_w ∙ ap (get_elem? ts) same ∙ found)) mine),
  )
  | inr other ↦ (w, t, get-set_at_ne c w new ts other ∙ at_w, mine)
]

-- A task that runs may be replaced by any other one.
pub count_running-set_at :
    (ts : List Task) (c : ℕ) (old new : Task)
    → get_elem? ts c ≡ some old
    → is_running old ≡ true
    → count_running (set_at c new ts) ≤ count_running ts
unfolding count_running set_at
count_running-set_at [] c old new e r = cc
count_running-set_at (x ∷ ts) zero old new e r =
    rw (ap is_running (some-injective e) ∙ r) (ground arith)
count_running-set_at (x ∷ ts) (suc c) old new e r = elim (Bool-cases (is_running x)) [
  | inl on ↦ rw on (omega (arith, count_running-set_at ts c old new e r))
  | inr off ↦ rw off (count_running-set_at ts c old new e r)
]

pub get-All :
    (P : Text → Type 0) (k : Text) (x : Room) (l : List (Text × Room))
    → get k l ≡ some x
    → All P (names l)
    → P k
unfolding get
get-All P k x [] e h = cc
get-All P k x ((n, y) ∷ l) e h = elim (Bool-cases (text_eq n k)) [
  | inl same ↦ subst P (text_eq→eq n k same) h.0
  | inr other ↦ get-All P k x l (sym (ap (λ b. if b then some y else get k l) other) ∙ e) h.1
]
