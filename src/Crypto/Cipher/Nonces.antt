-- ===== src/Crypto/Cipher/Nonces.antt =====
-- crypto/cipher.rs: no nonce is used for two frames.
use rusp.Prelude.{
  ℕ, ◌+◌, ◌≤◌, ◌<◌, ◌^◌, ◌≡◌, ◌≢◌, ◌⊎◌, refl, ◌∙◌, Option, none, some, List, [], ◌∷◌, ltb, Result,
  ok, err, arith, All, All-map, Distinct, Bool-cases, inl, inr, subst,
}
use rusp.Error.{CryptoError, decrypt, nonce_exhausted}
use rusp.Protocol.Frame.{FrameBuf, payload, payload_mut, push_slice}
use rusp.Crypto.Cipher.{Aead, nonce_for, checked_add_one, SealingKey, seal, sealed, advance_seal}
use rusp.Crypto.Cipher.Session.{nonce_for-injective}

-- How one call of `seal` moves the counter.
abbrev pub Outcome : SealingKey → Result CryptoError (Unit {0}) × SealingKey × FrameBuf → Type 0
Outcome s r =
    ((r.0 ≡ ok tt) × (r.1.counter ≡ s.counter + 1) × (s.counter + 1 < 2 ^ 64))
    ⊎ ((e : CryptoError) × (r.0 ≡ err e) × (r.1.counter ≡ s.counter))

advance-Outcome :
    (a : Aead) (s : SealingKey) (b : FrameBuf)
    → Outcome s (advance_seal a s b (checked_add_one s.counter))
unfolding advance_seal checked_add_one
advance-Outcome a s b = elim (Bool-cases (ltb (s.counter + 1) (2 ^ 64))) [
  | inl fits ↦ rw fits (inl (refl, refl, ground arith))
  | inr full ↦ rw full (inr (nonce_exhausted, refl, refl))
]

sealed-Outcome :
    (a : Aead) (s : SealingKey) (b : FrameBuf) (c : Option (List ℕ × List ℕ))
    → Outcome s (sealed a s b c)
unfolding sealed
sealed-Outcome a s b none = inr (decrypt, refl, refl)
sealed-Outcome a s b (some (text, tag)) = advance-Outcome a s _

pub seal-Outcome : (a : Aead) (s : SealingKey) (b : FrameBuf) → Outcome s (seal a s b)
unfolding seal
seal-Outcome a s b = sealed-Outcome a s b _

note : Result CryptoError (Unit {0}) → ℕ → List (List ℕ) → List (List ℕ)
note (ok _) n rest = nonce_for n ∷ rest
note (err _) n rest = rest

-- The nonces of the frames that a series of calls reports as sealed.
seal_nonces : Aead → SealingKey → List FrameBuf → List (List ℕ)
seal_nonces a s [] = []
seal_nonces a s (b ∷ bs) =
    let (done, s', _) = seal a s b in note done s.counter (seal_nonces a s' bs)

abbrev Later : ℕ → List ℕ → Type 0
Later n nonce = (c : ℕ) × (n ≤ c) × (c < 2 ^ 64) × (nonce ≡ nonce_for c)

Later-mono : (m n : ℕ) → m ≤ n → (x : List ℕ) → Later n x → Later m x
Later-mono m n h x (c, above, below, e) = (c, omega arith, below, e)

seal_nonces-Later :
    (a : Aead) (s : SealingKey) (bs : List FrameBuf) → All (Later s.counter) (seal_nonces a s bs)
unfolding seal_nonces note
seal_nonces-Later a s [] = tt
seal_nonces-Later a s (b ∷ bs) = elim (seal-Outcome a s b) [
  | inl (done, next, fits) ↦ rw done (
    (s.counter, omega arith, omega arith, refl),
    All-map (Later-mono s.counter (seal a s b).1.counter (omega arith)) _
        (seal_nonces-Later a (seal a s b).1 bs),
  )
  | inr (e, failed, same) ↦ rw failed (
      All-map (Later-mono s.counter (seal a s b).1.counter (omega arith)) _
        (seal_nonces-Later a (seal a s b).1 bs))
]

nonce-ne-Later : (n m : ℕ) → n < m → n < 2 ^ 64 → (x : List ℕ) → Later m x → nonce_for n ≢ x
nonce-ne-Later n m h small x (c, above, below, e) same =
    absurd (omega (arith, nonce_for-injective n c small below (same ∙ e)))

nonces-Distinct : (a : Aead) (s : SealingKey) (bs : List FrameBuf) → Distinct (seal_nonces a s bs)
unfolding seal_nonces note
nonces-Distinct a s [] = tt
nonces-Distinct a s (b ∷ bs) = elim (seal-Outcome a s b) [
  | inl (done, next, fits) ↦ rw done (
    All-map (nonce-ne-Later s.counter (seal a s b).1.counter (omega arith) (omega arith)) _
        (seal_nonces-Later a (seal a s b).1 bs),
    nonces-Distinct a (seal a s b).1 bs,
  )
  | inr (e, failed, same) ↦ rw failed (nonces-Distinct a (seal a s b).1 bs)
]

keep :
    Result CryptoError (Unit {0})
    → FrameBuf × FrameBuf
    → List (FrameBuf × FrameBuf)
    → List (FrameBuf × FrameBuf)
keep (ok _) pair rest = pair ∷ rest
keep (err _) pair rest = rest

-- The buffers of the calls that report success, before and behind the call.
pub seal_all : Aead → SealingKey → List FrameBuf → List (FrameBuf × FrameBuf)
seal_all a s [] = []
seal_all a s (b ∷ bs) = let (done, s', b') = seal a s b in keep done (b, b') (seal_all a s' bs)

-- The buffer `b'` holds what the AEAD gives for the payload of `b` under the key and the nonce.
abbrev pub SealedUnder : Aead → List ℕ → List ℕ → FrameBuf × FrameBuf → Type 0
SealedUnder a key nonce (b, b') =
    (text : List ℕ) × (tag : List ℕ) × (a.encrypt_detached key nonce (payload b) ≡ some (text, tag))
    × (b' ≡ push_slice (payload_mut b text) tag)

-- Each pair under a nonce of its own.
abbrev pub AllSealed : Aead → List ℕ → List (List ℕ) → List (FrameBuf × FrameBuf) → Type 0
AllSealed a key [] [] = Unit {0}
AllSealed a key (n ∷ ns) (p ∷ ps) = SealedUnder a key n p × AllSealed a key ns ps
AllSealed a key _ _ = ⊥

advance_seal-kept :
    (a : Aead) (s : SealingKey) (b : FrameBuf) (c : Option ℕ)
    → ((advance_seal a s b c).1.key ≡ s.key) × ((advance_seal a s b c).2 ≡ b)
unfolding advance_seal
advance_seal-kept a s b none = (refl, refl)
advance_seal-kept a s b (some n) = (refl, refl)

-- The key stays, and a success is that of the encryption under the counter.
sealed_lem :
    (a : Aead) (s : SealingKey) (b : FrameBuf) (c : Option (List ℕ × List ℕ))
    → ((sealed a s b c).1.key ≡ s.key)
      × (((sealed a s b c).0 ≡ err decrypt)
          ⊎ ((text : List ℕ) × (tag : List ℕ) × (c ≡ some (text, tag))
              × ((sealed a s b c).2 ≡ push_slice (payload_mut b text) tag)))
unfolding sealed
sealed_lem a s b none = (refl, inl refl)
sealed_lem a s b (some (text, tag)) =
    let (key, buffer) =
      advance_seal-kept a s (push_slice (payload_mut b text) tag) (checked_add_one s.counter) in
    (key, inr (text, tag, refl, buffer))

seal_lem :
    (a : Aead) (s : SealingKey) (b : FrameBuf)
    → ((seal a s b).1.key ≡ s.key)
      × ((seal a s b).0 ≡ ok tt → SealedUnder a s.key (nonce_for s.counter) (b, (seal a s b).2))
unfolding seal
seal_lem a s b =
    let (key, got) =
      sealed_lem a s b (a.encrypt_detached s.key (nonce_for s.counter) (payload b)) in
    (key, λ done. elim got [ inl failed ↦ cc (failed, done) | inr sealed_so ↦ sealed_so ])

AllSealed-keep :
    (a : Aead) (key : List ℕ) (n : ℕ) (done : Result CryptoError (Unit {0})) (b b' : FrameBuf)
    (ns : List (List ℕ)) (ps : List (FrameBuf × FrameBuf))
    → (done ≡ ok tt → SealedUnder a key (nonce_for n) (b, b'))
    → AllSealed a key ns ps
    → AllSealed a key (note done n ns) (keep done (b, b') ps)
unfolding note keep
AllSealed-keep a key n (ok _) b b' ns ps here later = (here refl, later)
AllSealed-keep a key n (err e) b b' ns ps here later = later

seal_all-AllSealed :
    (a : Aead) (s : SealingKey) (bs : List FrameBuf)
    → AllSealed a s.key (seal_nonces a s bs) (seal_all a s bs)
unfolding seal_nonces seal_all
seal_all-AllSealed a s [] = tt
seal_all-AllSealed a s (b ∷ bs) =
    let (key, here) = seal_lem a s b in
    AllSealed-keep a s.key s.counter (seal a s b).0 b (seal a s b).2 _ _ here (
      subst (λ k. AllSealed a k (seal_nonces a (seal a s b).1 bs) (seal_all a (seal a s b).1 bs))
        key (seal_all-AllSealed a (seal a s b).1 bs))

-- Whatever is sealed, in whatever order calls fail and succeed, each frame that `seal` reports as
-- sealed is what the AEAD gives under the one key for the text that stood in the buffer and a nonce,
-- and the nonces of all these frames are pairwise different.
pub seal_all-Distinct :
    (a : Aead) (s : SealingKey) (bs : List FrameBuf)
    → (nonces : List (List ℕ)) × Distinct nonces × AllSealed a s.key nonces (seal_all a s bs)
seal_all-Distinct a s bs = (seal_nonces a s bs, nonces-Distinct a s bs, seal_all-AllSealed a s bs)
