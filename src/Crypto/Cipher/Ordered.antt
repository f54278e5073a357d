-- ===== src/Crypto/Cipher/Ordered.antt =====
-- crypto/cipher.rs: replayed, reordered, dropped and forged frames.
use rusp.Prelude.{
  ℕ, ◌+◌, ◌<◌, ◌^◌, ◌≡◌, ◌⊎◌, refl, ap, ◌∙◌, sym, Bool, true, false, Option, none, some, List, [],
  ◌∷◌, ltb, if◌then◌else◌, Result, ok, err, arith, length, take, drop, ◌-◌, All, get_elem?,
  drop-get_elem?, IsPrefix, Bool-cases, inl, inr,
}
use native.Mathlib.Numerals.{add-one}
use rusp.Error.{CryptoError, decrypt, nonce_exhausted}
use rusp.Crypto.Cipher.{
  Aead, tag_len, nonce_for, checked_add_one, OpeningKey, open_frame, opened, advance_open, poison,
}
use rusp.Crypto.Cipher.Assumptions.{IsAead, IsNoForgery}

deliver : Result CryptoError (Unit {0}) → List ℕ → List (List ℕ) → List (List ℕ)
deliver (ok _) text rest = text ∷ rest
deliver (err _) text rest = rest

-- The texts that are handed on when frames arrive one after the other, also behind a failure.
pub open_all : Aead → OpeningKey → List (List ℕ) → List (List ℕ)
open_all a o [] = []
open_all a o (f ∷ fs) =
    let (done, o', text) = open_frame a o f in deliver done text (open_all a o' fs)

module _ (a : Aead) (texts : List (List ℕ)) where
  -- How one call of `open_frame` moves the key.
  abbrev Outcome : OpeningKey → Result CryptoError (Unit {0}) × OpeningKey × List ℕ → Type 0
  Outcome o r =
      (r.1.key ≡ o.key)
      × (((r.0 ≡ ok tt) × (r.1.counter ≡ o.counter + 1) × (get_elem? texts o.counter ≡ some r.2))
          ⊎ ((e : CryptoError) × (r.0 ≡ err e) × (r.1.counter ≡ o.counter)))

  advance-Outcome :
      (o : OpeningKey) (text : List ℕ)
      → (o.counter < 2 ^ 64 → get_elem? texts o.counter ≡ some text)
      → Outcome o (advance_open a o text (checked_add_one o.counter))
  unfolding advance_open checked_add_one
  advance-Outcome o text h = elim (Bool-cases (ltb (o.counter + 1) (2 ^ 64))) [
    | inl fits ↦ rw fits (refl, inl (refl, refl, h (ground arith)))
    | inr full ↦ rw full (refl, inr (nonce_exhausted, refl, refl))
  ]

  opened-Outcome :
      (o : OpeningKey) (buf : List ℕ) (t : Option (List ℕ))
      → ((text : List ℕ)
          → t ≡ some text
          → o.counter < 2 ^ 64
          → get_elem? texts o.counter ≡ some text)
      → Outcome o (opened a o buf t)
  unfolding opened poison
  opened-Outcome o buf none h = (refl, inr (decrypt, refl, refl))
  opened-Outcome o buf (some text) h = advance-Outcome o text (h text refl)

  Outcome-if :
      (o : OpeningKey) (test : Bool) (r q : Result CryptoError (Unit {0}) × OpeningKey × List ℕ)
      → Outcome o r
      → Outcome o q
      → Outcome o (if test then r else q)
  Outcome-if o true r q hr hq = hr
  Outcome-if o false r q hr hq = hq

  open-Outcome :
      (o : OpeningKey) (f : List ℕ)
      → IsAead a
      → IsNoForgery a o.key texts f
      → Outcome o (open_frame a o f)
  unfolding open_frame poison
  open-Outcome o f correct law =
      Outcome-if o o.poisoned _ _ (refl, inr (decrypt, refl, refl))
        (Outcome-if o (ltb (length f) tag_len) _ _ (refl, inr (decrypt, refl, refl))
          (opened-Outcome o f _ (λ text e below. genuine text e below)))
    where
      genuine :
          (text : List ℕ)
          → a.decrypt_detached o.key
              (nonce_for o.counter)
              (take (length f - tag_len) f)
              (drop (length f - tag_len) f)
            ≡ some text
          → o.counter < 2 ^ 64
          → get_elem? texts o.counter ≡ some text
      genuine text e below =
          let (sent, stands, made) = law.sealed_as o.counter text below e in
          cc (stands, e, correct.opens o.key (nonce_for o.counter) sent _ _ made)

  -- Frames may be replayed, dropped, put in another order or damaged: as long as none of them is a
  -- forgery, what an opening key hands on is a prefix of what is still to come of the texts that were
  -- sealed, in their order.
  pub open_all-IsPrefix :
      (o : OpeningKey) (fs : List (List ℕ))
      → IsAead a
      → All (IsNoForgery a o.key texts) fs
      → IsPrefix (open_all a o fs) (drop o.counter texts)
  unfolding open_all deliver
  open_all-IsPrefix o [] correct law = (drop o.counter texts, refl)
  open_all-IsPrefix o (f ∷ fs) correct law =
      let (key, moved) = open-Outcome o f correct law.0 in
      let law' : All (IsNoForgery a (open_frame a o f).1.key texts) fs = rw key law.1 in
      let (rest, e) = open_all-IsPrefix (open_frame a o f).1 fs correct law' in
      elim moved [
        | inl (done, next, genuine) ↦ rw done (
          rest,
          ap (◌∷◌ (open_frame a o f).2) (e ∙ ap (λ n. drop n texts) (next ∙ add-one o.counter))
              ∙ sym (drop-get_elem? texts o.counter (open_frame a o f).2 genuine),
        )
        | inr (_, failed, same) ↦ rw failed (rest, e ∙ ap (λ n. drop n texts) same)
      ]
