-- ===== src/Files/Path/Components.antt =====
-- std::path: the components of a path that was built by `push`.
use rusp.Prelude.{
  ℕ, ◌≡◌, ◌≢◌, refl, sym, ap, ◌∙◌, Bool, true, false, some, List, [], ◌∷◌, ◌++◌, append_assoc,
  append-nil, ◌==◌, All, Bool-cases, inl, inr, text_eq, text_eq→eq, text_eq_refl, codes, push_front,
  split, starts_with, ends_with, arith,
}
use rusp.Error.{Text}
use rusp.Files.Path.{
  Component, root_dir, cur_dir, parent_dir, normal, slash, is_slash, of_segment, of_segments,
  first_segment, with_first, components, push, component_eq, strip_prefix,
}

-- A name that is one ordinary component of a path.
pub record IsName (c : Text) : Type 0 where
  pub named : c ≢ []
  pub not_dot : c ≢ codes "."
  pub not_dots : c ≢ codes ".."
  pub no_slash : All (λ ch. is_slash ch ≡ false) c

text_ne : (a b : Text) → a ≢ b → text_eq a b ≡ false
text_ne a b h = elim (Bool-cases (text_eq a b)) [
  | inl same ↦ absurd (h (text_eq→eq a b same))
  | inr differ ↦ differ
]

pub split-cons : (p : ℕ → Bool) (t : Text) → (w : Text) × (ws : List Text) × (split p t ≡ w ∷ ws)
unfolding split
split-cons p [] = ([], [], refl)
split-cons p (c ∷ cs) = elim (Bool-cases (p c)) [
  | inl sep ↦ ([], split p cs, rw sep)
  | inr char ↦ let (w, ws, e) = split-cons p cs in (c ∷ w, ws, rw (char, e))
]

push_front-append :
    (c : ℕ) (w : Text) (ws vs : List Text)
    → push_front c ((w ∷ ws) ++ vs) ≡ push_front c (w ∷ ws) ++ vs
push_front-append c w ws vs = refl

-- A separator ends one part and begins another.
pub split-append :
    (p : ℕ → Bool) (u : Text) (s : ℕ) (v : Text)
    → p s ≡ true
    → split p (u ++ s ∷ v) ≡ split p u ++ split p v
unfolding split
split-append p [] s v h = rw h
split-append p (c ∷ u) s v h = elim (Bool-cases (p c)) [
  | inl sep ↦ rw (sep, split-append p u s v h)
  | inr char ↦ let (w, ws, e) = split-cons p u in rw (char, split-append p u s v h, e) refl
]

pub split_whole : (p : ℕ → Bool) (c : Text) → All (λ ch. p ch ≡ false) c → split p c ≡ c ∷ []
unfolding split
split_whole p [] h = refl
split_whole p (c ∷ cs) h = rw (h.0, split_whole p cs h.1)

of_segment-IsName : (c : Text) → IsName c → of_segment c ≡ normal c ∷ []
unfolding of_segment
of_segment-IsName [] h = absurd (h.named refl)
of_segment-IsName (a ∷ as') h =
    rw (text_ne (a ∷ as') (codes ".") h.not_dot, text_ne (a ∷ as') (codes "..") h.not_dots)

of_segments-append : (xs ys : List Text) → of_segments (xs ++ ys) ≡ of_segments xs ++ of_segments ys
unfolding of_segments
of_segments-append [] ys = refl
of_segments-append (x ∷ xs) ys =
    rw (of_segments-append xs ys, append_assoc (of_segment x) (of_segments xs) (of_segments ys))

with_first-append :
    (b : Bool) (x : Text) (xs ys : List Text)
    → with_first b ((x ∷ xs) ++ ys) ≡ with_first b (x ∷ xs) ++ of_segments ys
unfolding with_first
with_first-append b x xs ys = simp (of_segments-append, append_assoc)

ends_with-append : (ch : ℕ) (t : Text) → ends_with ch t ≡ true → (u : Text) × (t ≡ u ++ ch ∷ [])
unfolding ends_with
ends_with-append ch [] h = cc
ends_with-append ch (d ∷ []) h = ([], ground arith)
ends_with-append ch (d ∷ e ∷ es) h =
    let (u, same) = ends_with-append ch (e ∷ es) h in (d ∷ u, ap (◌∷◌ d) same)

IsName-starts_with : (c : Text) → IsName c → starts_with slash c ≡ false
unfolding is_slash
IsName-starts_with [] h = refl
IsName-starts_with (a ∷ as') h = h.no_slash.0

-- The first part is never gone: what is behind it is appended to.
with_first-split :
    (b : Bool) (t : Text) (ys : List Text)
    → with_first b (split is_slash t ++ ys) ≡ with_first b (split is_slash t) ++ of_segments ys
with_first-split b t ys =
    let (w, ws, e) = split-cons is_slash t in rw e (with_first-append b w ws ys)

of_segments-one : (c : Text) → IsName c → of_segments (c ∷ []) ≡ normal c ∷ []
unfolding of_segments
of_segments-one c h = rw (of_segment-IsName c h)

of_segments-nil : of_segments ([] ∷ []) ≡ []
unfolding of_segments of_segment
of_segments-nil = refl

slash_splits : is_slash slash ≡ true
unfolding is_slash
slash_splits = refl

joined :
    (b : Bool) (u c : Text)
    → IsName c
    → with_first b (split is_slash (u ++ slash ∷ c))
      ≡ with_first b (split is_slash u) ++ normal c ∷ []
joined b u c h = rw (
  split-append is_slash u slash c slash_splits,
  split_whole is_slash c h.no_slash,
  with_first-split b u (c ∷ []),
  of_segments-one c h,
)

trailing :
    (b : Bool) (u : Text)
    → with_first b (split is_slash (u ++ slash ∷ [])) ≡ with_first b (split is_slash u)
trailing b u =
    rw (split-append is_slash u slash [] slash_splits, with_first-split b u (split is_slash []))
      (unfold split in rw (of_segments-nil, append-nil))

with_first_name : (c : Text) → IsName c → with_first false (c ∷ []) ≡ normal c ∷ []
unfolding with_first first_segment of_segments
with_first_name c h = rw (text_ne c (codes ".") h.not_dot, of_segment-IsName c h)

components_name : (c : Text) → IsName c → components c ≡ normal c ∷ []
unfolding components
components_name c h =
    rw (IsName-starts_with c h, split_whole is_slash c h.no_slash) (with_first_name c h)

components_nil : components [] ≡ []
unfolding components split with_first first_segment of_segments of_segment text_eq
components_nil = refl

behind_slash :
    (b : Bool) (path u c : Text)
    → IsName c
    → path ≡ u ++ slash ∷ []
    → with_first b (split is_slash (path ++ c))
      ≡ with_first b (split is_slash path) ++ normal c ∷ []
behind_slash b path u c h same =
    ap (λ t. with_first b (split is_slash t))
      (ap (λ t. t ++ c) same ∙ append_assoc u (slash ∷ []) c)
    ∙ joined b u c h
    ∙ ap (λ l. l ++ normal c ∷ [])
        (sym (trailing b u) ∙ ap (λ t. with_first b (split is_slash t)) (sym same))

-- `push` of an ordinary name appends one component, whatever the path was.
pub components-push :
    (path c : Text) → IsName c → components (push path c) ≡ components path ++ normal c ∷ []
unfolding push
components-push [] c h =
    rw (IsName-starts_with c h)
      (components_name c h ∙ ap (λ l. l ++ normal c ∷ []) (sym components_nil))
components-push (a ∷ as') c h = elim (Bool-cases (ends_with slash (a ∷ as'))) [
  | inl slashed ↦
      let (u, same) = ends_with-append slash (a ∷ as') slashed in
      rw (IsName-starts_with c h, slashed)
        (unfold components in behind_slash (a == slash) (a ∷ as') u c h same)
  | inr plain ↦
      rw (IsName-starts_with c h, plain) (unfold components in joined (a == slash) (a ∷ as') c h)
]

component_eq_refl : (c : Component) → component_eq c c ≡ true
unfolding component_eq
component_eq_refl root_dir = refl
component_eq_refl cur_dir = refl
component_eq_refl parent_dir = refl
component_eq_refl (normal s) = text_eq_refl s

pub strip_prefix-append : (xs ys : List Component) → strip_prefix xs (xs ++ ys) ≡ some ys
unfolding strip_prefix
strip_prefix-append [] ys = refl
strip_prefix-append (x ∷ xs) ys = rw (component_eq_refl x) (strip_prefix-append xs ys)
