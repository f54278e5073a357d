-- ===== src/Prelude/Steps.antt =====
-- Methods on a mutable state that may return early with an error.
use mathlib.Core.Path.{◌≡◌, refl, ap}
use rusp.Prelude.Outcome.{Result, ok, err, Act}

abbrev pub continue : {E S A B : Type 0} → Result E A × S → (A → Act E S B) → Result E B × S
continue (ok a, s) f = f a s
continue (err e, s) f = (err e, s)

infixl 5 ◌>>=◌
abbrev pub ◌>>=◌ : {E S A B : Type 0} → Act E S A → (A → Act E S B) → Act E S B
◌>>=◌ first next s = continue (first s) next

infixl 5 ◌>>◌
abbrev pub ◌>>◌ : {E S B : Type 0} → Act E S (Unit {0}) → Act E S B → Act E S B
first >> next = first >>= λ _. next

abbrev pub pure : {E S A : Type 0} → A → Act E S A
pure a s = (ok a, s)

abbrev pub lift : {E S A : Type 0} → Result E A → Act E S A
lift r s = (r, s)

ok_value : {E A : Type 0} (a b : A) → ◌≡◌ {A = Result E A} (ok a) (ok b) → a ≡ b
ok_value a b h = cc

-- What follows a step that succeeded, and one that failed.
pub continue_ok :
    {E S A B : Type 0} (r : Result E A × S) (f : A → Act E S B) (a : A)
    → r.0 ≡ ok a
    → continue r f ≡ f a r.1
continue_ok (ok x, s) f a h = ap (λ y. f y s) (ok_value x a h)
continue_ok (err x, s) f a h = cc

pub continue_err :
    {E S A B : Type 0} (r : Result E A × S) (f : A → Act E S B) (e : E)
    → r.0 ≡ err e
    → continue r f ≡ (err e, r.1)
continue_err (ok x, s) f e h = cc
continue_err (err x, s) f e h = cc

-- A step that succeeded, and the one behind it.
pub continue-eq-ok :
    {E S A B : Type 0} (r : Result E A × S) (f : A → Act E S B) {b : B} {s' : S}
    → continue r f ≡ (ok b, s')
    → (a : A) × (t : S) × (r ≡ (ok a, t)) × (f a t ≡ (ok b, s'))
continue-eq-ok (ok a, t) f e = (a, t, refl, e)
continue-eq-ok (err x, t) f e = cc
