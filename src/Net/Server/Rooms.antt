-- ===== src/Net/Server/Rooms.antt =====
-- The map of rooms: a hash map from names, as a list of entries without order.
use rusp.Prelude.{
  ◌+◌, ◌≤◌, ◌≡◌, ◌≢◌, refl, sym, ap, ◌∙◌, false, Bool-cases, inl, inr, Option, none, some, List, [],
  ◌∷◌, map, length, All, Distinct, if◌then◌else◌, text_eq, text_eq→eq, text_eq_refl, arith,
}
use rusp.Error.{Text}

text_eq_ne : (a b : Text) → a ≢ b → text_eq a b ≡ false
text_eq_ne a b h = elim (Bool-cases (text_eq a b)) [
  | inl same ↦ absurd (h (text_eq→eq a b same))
  | inr other ↦ other
]

module _ {R : Type 0} where
  abbrev pub names : List (Text × R) → List Text
  names = map (λ e. e.0)

  unfoldable pub get : Text → List (Text × R) → Option R
  get k [] = none
  get k ((n, x) ∷ l) = let rest = get k l in if text_eq n k then some x else rest

  unfoldable pub remove : Text → List (Text × R) → List (Text × R)
  remove k [] = []
  remove k ((n, x) ∷ l) = let rest = remove k l in if text_eq n k then rest else (n, x) ∷ rest

  unfoldable pub insert : Text → R → List (Text × R) → List (Text × R)
  insert k x l = (k, x) ∷ remove k l

  pub get-remove : (k : Text) (l : List (Text × R)) → get k (remove k l) ≡ none
  unfolding get remove
  get-remove k [] = refl
  get-remove k ((n, x) ∷ l) = elim (Bool-cases (text_eq n k)) [
    | inl same ↦ rw same (get-remove k l)
    | inr other ↦ rw (other, other) (get-remove k l)
  ]

  pub get-remove_ne : (k j : Text) (l : List (Text × R)) → j ≢ k → get j (remove k l) ≡ get j l
  unfolding get remove
  get-remove_ne k j [] h = refl
  get-remove_ne k j ((n, x) ∷ l) h = elim (Bool-cases (text_eq n k)) [
    | inl same ↦
        rw (same, text_eq_ne n j (λ e. h (sym e ∙ text_eq→eq n k same))) (get-remove_ne k j l h)
    | inr other ↦ rw other (ap (λ r. if text_eq n j then some x else r) (get-remove_ne k j l h))
  ]

  pub get-insert : (k : Text) (x : R) (l : List (Text × R)) → get k (insert k x l) ≡ some x
  unfolding get insert
  get-insert k x l = rw (text_eq_refl k)

  pub get-insert_ne :
      (k j : Text) (x : R) (l : List (Text × R)) → j ≢ k → get j (insert k x l) ≡ get j l
  unfolding get insert
  get-insert_ne k j x l h = rw (text_eq_ne k j (λ e. h (sym e))) (get-remove_ne k j l h)

  pub remove-All :
      (P : Text → Type 0) (k : Text) (l : List (Text × R))
      → All P (names l)
      → All P (names (remove k l))
  unfolding remove
  remove-All P k [] h = tt
  remove-All P k ((n, x) ∷ l) h = elim (Bool-cases (text_eq n k)) [
    | inl same ↦ rw same (remove-All P k l h.1)
    | inr other ↦ rw other (h.0, remove-All P k l h.1)
  ]

  pub removed-All : (k : Text) (l : List (Text × R)) → All (λ n. k ≢ n) (names (remove k l))
  unfolding remove
  removed-All k [] = tt
  removed-All k ((n, x) ∷ l) = elim (Bool-cases (text_eq n k)) [
    | inl same ↦ rw same (removed-All k l)
    | inr other ↦ rw other ((λ e. cc (other, ap (text_eq n) e, text_eq_refl n)), removed-All k l)
  ]

  pub remove-Distinct :
      (k : Text) (l : List (Text × R)) → Distinct (names l) → Distinct (names (remove k l))
  unfolding remove
  remove-Distinct k [] h = tt
  remove-Distinct k ((n, x) ∷ l) h = elim (Bool-cases (text_eq n k)) [
    | inl same ↦ rw same (remove-Distinct k l h.1)
    | inr other ↦ rw other (remove-All (λ m. n ≢ m) k l h.0, remove-Distinct k l h.1)
  ]

  pub insert-Distinct :
      (k : Text) (x : R) (l : List (Text × R))
      → Distinct (names l)
      → Distinct (names (insert k x l))
  unfolding insert
  insert-Distinct k x l h = (removed-All k l, remove-Distinct k l h)

  pub length-remove_le : (k : Text) (l : List (Text × R)) → length (remove k l) ≤ length l
  unfolding remove
  length-remove_le k [] = omega arith
  length-remove_le k ((n, x) ∷ l) = elim (Bool-cases (text_eq n k)) [
    | inl same ↦ rw same (omega (arith, length-remove_le k l))
    | inr other ↦ rw other (omega (arith, length-remove_le k l))
  ]

  -- A taken name frees at least one entry.
  pub length-remove_taken :
      (k : Text) (x : R) (l : List (Text × R))
      → get k l ≡ some x
      → length (remove k l) + 1 ≤ length l
  unfolding get remove
  length-remove_taken k x [] h = cc
  length-remove_taken k x ((n, y) ∷ l) h = elim (Bool-cases (text_eq n k)) [
    | inl same ↦ rw same (omega (arith, length-remove_le k l))
    | inr other ↦ rw other (
        omega (
          arith,
          length-remove_taken k x l (sym (ap (λ t. if t then some y else get k l) other) ∙ h),
        ))
  ]
