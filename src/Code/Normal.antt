-- ===== src/Code/Normal.antt =====
-- code/mod.rs: normalised codes.
use rusp.Prelude.{
  ℕ, ◌≤◌, arith, ◌≡◌, ◌≢◌, refl, sym, ap, ◌∙◌, Bool, true, false, not, Bool-cases, inl, inr, Option,
  none, some, [], ◌∷◌, ◌++◌, append_assoc, All, ltb, ◌==◌, ==_iff, if◌then◌else◌, Result, ok, err,
  ok_or, ◌>>=◌, ◌>>◌, fail_if, >>=-eq-ok, fail_if-eq-ok,
}
use rusp.Error.{Text, CodeError, missing_secret, secret_too_short, invalid_room}
use rusp.Code.{
  Unicode, RoomId, TransferCode, separator, display, is_empty, is_separating, normalize_char,
  normalize_from, normalize, split_once, cons_first, count_chars, parse_parts, parse, room_new,
  is_valid_room, min_secret_chars,
}

-- What is relied on of the tables: the lower-case form of a character is not empty, is in lower
-- case, and has no white space or separator in it unless the character is one.
pub record IsUnicode (u : Unicode) : Type 0 where
  pub some_char : (c : ℕ) → u.to_lowercase c ≢ []
  pub lowered :
      (c : ℕ)
      → is_separating u c ≡ false
      → All (λ d. (is_separating u d ≡ false) × (u.to_lowercase d ≡ d ∷ [])) (u.to_lowercase c)

module _ (u : Unicode) where
  abbrev pub Plain : ℕ → Type 0
  Plain d = (is_separating u d ≡ false) × (u.to_lowercase d ≡ d ∷ [])

  pub normalize_from-append :
      (state : Text × Bool) (a b : Text)
      → normalize_from u state (a ++ b) ≡ normalize_from u (normalize_from u state a) b
  unfolding normalize_from
  normalize_from-append state [] b = refl
  normalize_from-append state (c ∷ a) b = normalize_from-append (normalize_char u state c) a b

  -- Plain characters are taken as they are, behind a separator that is pending.
  pub normalize_from-Plain :
      (out : Text) (pending : Bool) (ds : Text)
      → All Plain ds
      → ds ≢ []
      → normalize_from u (out, pending) ds
        ≡ ((if pending then out ++ (separator ∷ []) else out) ++ ds, false)
  unfolding normalize_from normalize_char
  normalize_from-Plain out pending [] h some_char = absurd (some_char refl)
  normalize_from-Plain out pending (d ∷ []) h _ = rw (h.0.0, h.0.1) refl
  normalize_from-Plain out pending (d ∷ e ∷ ds) h _ =
      rw (h.0.0, h.0.1)
        (normalize_from-Plain ((if pending then out ++ (separator ∷ []) else out) ++ (d ∷ [])) false
            (e ∷ ds) h.1 (λ x. cc)
          ∙ ap (λ l. (l, false))
              (append_assoc (if pending then out ++ (separator ∷ []) else out) (d ∷ []) (e ∷ ds)))

  pub normalize_separator :
      (out : Text)
      → is_empty out ≡ false
      → normalize_from u (out, false) (separator ∷ []) ≡ (out, true)
  unfolding normalize_from normalize_char is_separating
  normalize_separator out some_char = rw some_char refl

  -- What the loop has written, it would write again.
  record IsStable (state : Text × Bool) : Type 0 where
    stays : normalize_from u ([], false) state.0 ≡ (state.0, false)
    pending : state.1 ≡ true → is_empty state.0 ≡ false

  flipped : (b : Bool) → not b ≡ true → b ≡ false
  flipped true h = cc
  flipped false h = refl

  normalize_char-IsStable :
      (laws : IsUnicode u) (out : Text) (pending : Bool) (c : ℕ)
      → IsStable (out, pending)
      → (b : Bool) → is_separating u c ≡ b
      → IsStable (normalize_char u (out, pending) c)
  unfolding normalize_char
  normalize_char-IsStable laws out pending c h true e =
      rw e (record { stays = h.stays; pending = flipped (is_empty out) })
  normalize_char-IsStable laws out false c h false e = rw e (record {
    stays =
        normalize_from-append ([], false) out (u.to_lowercase c)
        ∙ ap (λ s. normalize_from u s (u.to_lowercase c)) h.stays
        ∙ normalize_from-Plain out false (u.to_lowercase c) (laws.lowered c e) (laws.some_char c);
    pending = λ x. cc;
  })
  normalize_char-IsStable laws out true c h false e = rw e (record {
    stays =
        normalize_from-append ([], false) (out ++ (separator ∷ [])) (u.to_lowercase c)
        ∙ ap (λ s. normalize_from u s (u.to_lowercase c)) (pended (h.pending refl))
        ∙ normalize_from-Plain out true (u.to_lowercase c) (laws.lowered c e) (laws.some_char c);
    pending = λ x. cc;
  })
    where
      pended :
          is_empty out ≡ false
          → normalize_from u ([], false) (out ++ (separator ∷ [])) ≡ (out, true)
      pended some_char =
          normalize_from-append ([], false) out (separator ∷ [])
          ∙ ap (λ s. normalize_from u s (separator ∷ [])) h.stays
          ∙ normalize_separator out some_char

  normalize_from-IsStable :
      (laws : IsUnicode u) (state : Text × Bool) (cs : Text)
      → IsStable state
      → IsStable (normalize_from u state cs)
  unfolding normalize_from
  normalize_from-IsStable laws state [] h = h
  normalize_from-IsStable laws (out, pending) (c ∷ cs) h =
      normalize_from-IsStable laws (normalize_char u (out, pending) c) cs
        (normalize_char-IsStable laws out pending c h (is_separating u c) refl)

  pub normalize-normalize :
      (laws : IsUnicode u) (t : Text) → normalize u (normalize u t) ≡ normalize u t
  unfolding normalize normalize_from
  normalize-normalize laws t =
      ap (λ s. s.0)
        (normalize_from-IsStable laws ([], false) t
          (record { stays = refl; pending = λ x. cc })).stays

cons_first-eq-some :
    (d : ℕ) (o : Option (Text × Text)) {a b : Text}
    → cons_first d o ≡ some (a, b)
    → (a' : Text) × (o ≡ some (a', b)) × (a ≡ d ∷ a')
cons_first-eq-some d none h = cc
cons_first-eq-some d (some (x, y)) h = (x, cc, cc)

pub split_once-eq-some :
    (c : ℕ) (t : Text) {a b : Text} → split_once c t ≡ some (a, b) → t ≡ a ++ (c ∷ b)
unfolding split_once
split_once-eq-some c [] h = cc
split_once-eq-some c (d ∷ ds) {a} {b} h = elim (Bool-cases (d == c)) [
  | inl same ↦ found ((==_iff d c).0 same) (sym (ap test same) ∙ h)
  | inr other ↦
      let (a', rest, e) = cons_first-eq-some d (split_once c ds) (sym (ap test other) ∙ h) in
      rw e (ap (◌∷◌ d) (split_once-eq-some c ds rest))
]
  where
    test : Bool → Option (Text × Text)
    test t = if t then some ([], ds) else cons_first d (split_once c ds)

    found :
        d ≡ c
        → ◌≡◌ {A = Option (Text × Text)} (some ([], ds)) (some (a, b))
        → ◌≡◌ {A = Text} (d ∷ ds) (a ++ (c ∷ b))
    found same e = rw (same, ← ap first e, ← ap second e) refl
      where
        first : Option (Text × Text) → Text
        first none = []
        first (some p) = p.0

        second : Option (Text × Text) → Text
        second none = b
        second (some p) = p.1

room_new-eq-ok :
    (s : Text) (id : RoomId) → room_new s ≡ ok id → (is_valid_room s ≡ true) × (id.as_str ≡ s)
unfolding room_new
room_new-eq-ok s id h = elim (Bool-cases (is_valid_room s)) [
  | inl valid ↦ (valid, sym (ap text (sym (ap test valid) ∙ h)))
  | inr bad ↦ absurd (differ (sym (ap test bad) ∙ h))
]
  where
    test : Bool → Result CodeError RoomId
    test b = if b then ok (record { as_str = s }) else err (invalid_room s)

    text : Result CodeError RoomId → Text
    text (ok r) = r.as_str
    text (err e) = s

    differ : err (invalid_room s) ≡ ok id → ⊥
    differ e = cc

parse_parts-eq-ok :
    (parts : Text × Text) (c : TransferCode)
    → parse_parts parts ≡ ok c
    → (is_valid_room c.room.as_str ≡ true)
      × (ltb (count_chars c.secret) min_secret_chars ≡ false)
      × (parts ≡ (c.room.as_str, c.secret))
unfolding parse_parts
parse_parts-eq-ok (room, secret) c h =
    let (_, h1) = fail_if-eq-ok (is_empty secret) missing_secret _ h in
    let (long, h2) = fail_if-eq-ok _ (secret_too_short min_secret_chars) _ h1 in
    let (id, made, h3) = >>=-eq-ok (room_new room) _ h2 in
    let (valid, same) = room_new-eq-ok room id made in
    let e = code_value (record { room = id; secret = secret }) c h3 in
    (
      ap is_valid_room (sym (ap (λ x. x.room.as_str) e)) ∙ ap is_valid_room same ∙ valid,
      ap (λ x. ltb (count_chars x.secret) min_secret_chars) (sym e) ∙ long,
      ap (λ t. (t, secret)) (sym same) ∙ ap (λ x. (x.room.as_str, x.secret)) e,
    )
  where
    code_value :
        (a b : TransferCode) → ◌≡◌ {A = Result CodeError TransferCode} (ok a) (ok b) → a ≡ b
    code_value a b x = cc

module _ (u : Unicode) (laws : IsUnicode u) where
  -- A code that is accepted has a valid room and a secret of at least eight characters, and when it is
  -- displayed and typed in again it is the same code.
  pub parse-display :
      (input : Text) (c : TransferCode)
      → parse u input ≡ ok c
      → (parse u (display c) ≡ ok c)
        × (is_valid_room c.room.as_str ≡ true)
        × (min_secret_chars ≤ count_chars c.secret)
  unfolding parse display
  parse-display input c h =
      let (_, h1) = fail_if-eq-ok (is_empty (normalize u input)) CodeError.empty _ h in
      let (parts, cut, h2) =
        >>=-eq-ok (ok_or (split_once separator (normalize u input)) missing_secret) parse_parts
          h1 in
      let (valid, long, same) = parse_parts-eq-ok parts c h2 in
      let shown : normalize u input ≡ display c =
        split_once-eq-some separator (normalize u input) (ok_or_lem _ cut ∙ ap some same) in
      (
        ap (parse_normal) (ap (normalize u) (sym shown) ∙ normalize-normalize u laws input) ∙ h,
        valid,
        ground arith,
      )
    where
      parse_normal : Text → Result CodeError TransferCode
      parse_normal t =
          fail_if (is_empty t) CodeError.empty
          >> (ok_or (split_once separator t) missing_secret >>= parse_parts)

      ok_or_lem :
          (o : Option (Text × Text)) {p : Text × Text} → ok_or o missing_secret ≡ ok p → o ≡ some p
      ok_or_lem (some x) e = cc
      ok_or_lem none e = cc
