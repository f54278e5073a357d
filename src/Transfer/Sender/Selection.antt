-- ===== src/Transfer/Sender/Selection.antt =====
-- transfer/sender.rs: which selections of a receiver are served.
use rusp.Prelude.{
  ℕ, ◌<◌, ◌≡◌, ◌↔◌, refl, Option, none, some, List, [], ◌∷◌, ok, Result-cases, inl, inr, arith,
}
use rusp.Transfer.Sender.{validate_selection, check_selection, not_after, bad}

abbrev Above : Option ℕ → ℕ → Type 0
Above none i = Unit
Above (some p) i = p < i

-- Every index is one of the entries, and each is above the one before it.
abbrev pub Ascending : ℕ → Option ℕ → List ℕ → Type 0
Ascending n previous [] = Unit
Ascending n previous (i ∷ is) = (i < n) × Above previous i × Ascending n (some i) is

check_selection_lem :
    (n : ℕ) (previous : Option ℕ) (wanted : List ℕ)
    → (check_selection n previous wanted ≡ ok tt) ↔ Ascending n previous wanted
unfolding check_selection not_after bad
check_selection_lem n previous [] = ((λ h. tt), λ h. refl)
check_selection_lem n none (i ∷ is) =
    let rest = check_selection_lem n (some i) is in
    ((λ h. ground (arith, rest)), λ h. ground (arith, rest))
check_selection_lem n (some p) (i ∷ is) =
    let rest = check_selection_lem n (some i) is in
    ((λ h. ground (arith, rest)), λ h. ground (arith, rest))

-- A selection is accepted just when its indices are strictly ascending and all below the number of
-- entries, and then it is taken as it is.
pub validate_selection_lem :
    (wanted : List ℕ) (n : ℕ) → (validate_selection wanted n ≡ ok wanted) ↔ Ascending n none wanted
unfolding validate_selection
validate_selection_lem wanted n =
    let both = check_selection_lem n none wanted in
    (
      (λ h. elim (Result-cases (check_selection n none wanted)) [
        | inl (_, good) ↦ both.0 good
        | inr (e, failed) ↦ cc (rw failed at h)
      ]),
      λ h. rw (both.1 h),
    )
