-- ===== src/Tests/Instances.antt =====
-- An AEAD, a serializer, primitives and a disk that have the properties which are assumed of them.
use rusp.Prelude.{
  ℕ, ◌≡◌, refl, sym, ap, ◌∙◌, Bool, true, false, Option, none, some, List, [], ◌∷◌, replicate,
  text_eq, text_eq→eq, text_eq_refl, ◌-◌, ◌≢◌, subst, be_bytes, le_bytes, take-append, drop-append,
  take, drop, length, length-take, length-append, ◌++◌, ◌^◌, ◌<◌, get_elem?, if◌then◌else◌, codes,
  arith,
}
use rusp.Protocol.Message.{
  Hello, ControlMessage, capabilities, offer, accept, decline, file_start, file_end, complete,
  cancel, failure, keepalive,
}
use rusp.Protocol.Message.Codec.{Serde, RoundTrips}
use rusp.Protocol.Externals.{Externals}
use rusp.Crypto.Keys.{Primitives}
use rusp.Crypto.Cipher.{Aead, nonce_for}
use rusp.Crypto.Cipher.Assumptions.{IsAead, IsNoForgery}
use rusp.Crypto.Cipher.Session.{nonce_for-injective}

-- The text as it is, with a tag of zeros.
abbrev pub plain : Aead
plain = record {
  encrypt_detached = λ key nonce text. some (text, replicate 16 0);
  decrypt_detached = λ key nonce text tag. some text;
}

pub plain-IsAead : IsAead plain
plain-IsAead = record {
  seals = λ key nonce text h. ((text, replicate 16 0), refl);
  keeps_length = λ key nonce text c tag h. cc;
  tags = λ key nonce text c tag h. cc;
  opens = λ key nonce text c tag h. cc;
}

-- The tag is the nonce, filled up to 16 bytes.
abbrev pub stamp : List ℕ → List ℕ
stamp nonce = take 16 (nonce ++ replicate 16 0)

-- The text as it is, which opens with the stamp of its nonce only.
abbrev pub stamped : Aead
stamped = record {
  encrypt_detached = λ key nonce text. some (text, stamp nonce);
  decrypt_detached = λ key nonce c tag. if text_eq tag (stamp nonce) then some c else none;
}

length-stamp : (nonce : List ℕ) → length (stamp nonce) ≡ 16
length-stamp nonce =
    omega (arith, length-take 16 (nonce ++ replicate 16 0), length-append nonce (replicate 16 0))

stamped_opens :
    (nonce text c tag : List ℕ)
    → ◌≡◌ {A = Option (List ℕ × List ℕ)} (some (text, stamp nonce)) (some (c, tag))
    → (if text_eq tag (stamp nonce) then some c else none) ≡ some text
stamped_opens nonce text c tag h =
    let same : tag ≡ stamp nonce = cc in
    let whole : c ≡ text = cc in rw same (rw (text_eq_refl (stamp nonce)) (ap some whole))

pub stamped-IsAead : IsAead stamped
stamped-IsAead = record {
  seals = λ key nonce text h. ((text, stamp nonce), refl);
  keeps_length = λ key nonce text c tag h. cc;
  tags = λ key nonce text c tag h. cc (h, length-stamp nonce);
  opens = λ key nonce text c tag h. stamped_opens nonce text c tag h;
}

if_some :
    (test : Bool) (c text : List ℕ)
    → (if test then some c else none) ≡ some text
    → (test ≡ true) × (c ≡ text)
if_some true c text h = (refl, cc)
if_some false c text h = cc

-- Twelve bytes of the stamp are the nonce.
stamp-injective :
    (n m : ℕ) → n < 2 ^ 64 → m < 2 ^ 64 → stamp (nonce_for n) ≡ stamp (nonce_for m) → n ≡ m
unfolding nonce_for be_bytes le_bytes
stamp-injective n m hn hm h = nonce_for-injective n m hn hm (ap (take 12) h)

abbrev pub sealed_texts : List (List ℕ)
sealed_texts = (8 ∷ 9 ∷ []) ∷ (5 ∷ []) ∷ []

-- The frame of a text.
abbrev pub frame_at : ℕ → List ℕ → List ℕ
frame_at n text = text ++ stamp (nonce_for n)

pub frame_at-IsNoForgery :
    (n : ℕ) (text : List ℕ)
    → n < 2 ^ 64
    → get_elem? sealed_texts n ≡ some text
    → IsNoForgery stamped [] sealed_texts (frame_at n text)
frame_at-IsNoForgery n text small stands = record {
  sealed_as = λ m opened below h.
      let (same, whole) = if_some _ _ opened h in
      let e : stamp (nonce_for n) ≡ stamp (nonce_for m) = sym tagged ∙ text_eq→eq _ _ same in
      let at : n ≡ m = stamp-injective n m small below e in
      (text, subst (λ k. get_elem? sealed_texts k ≡ some text) at stands, cc (body, tagged, e));
}
  where
    split : length (frame_at n text) - 16 ≡ length text
    split = omega (arith, length-append text (stamp (nonce_for n)), length-stamp (nonce_for n))

    body : take (length (frame_at n text) - 16) (frame_at n text) ≡ text
    body = rw split (take-append (length text) text (stamp (nonce_for n)) refl)

    tagged : drop (length (frame_at n text) - 16) (frame_at n text) ≡ stamp (nonce_for n)
    tagged = rw split (drop-append (length text) text (stamp (nonce_for n)) refl)

-- A frame with another tag opens nowhere.
abbrev pub damaged : List ℕ
damaged = 8 ∷ 9 ∷ replicate 16 1

pub damaged-IsNoForgery : IsNoForgery stamped [] sealed_texts damaged
damaged-IsNoForgery = record {
  sealed_as = λ m opened below h. absurd (other m (text_eq→eq _ _ (if_some _ _ opened h).0));
}
  where
    other : (m : ℕ) → replicate 16 1 ≢ stamp (nonce_for m)
    other m e = unfold nonce_for in cc e

-- Only keepalives are written.
abbrev pub keepalive_bytes : ControlMessage → Option (List ℕ)
keepalive_bytes keepalive = some (1 ∷ 2 ∷ [])
keepalive_bytes _ = none

abbrev pub keepalives : Serde ControlMessage
keepalives = record { to_vec_named = keepalive_bytes; from_slice = λ bytes. some keepalive }

keepalive_back :
    (m : ControlMessage) (bytes : List ℕ) → keepalive_bytes m ≡ some bytes → some keepalive ≡ some m
keepalive_back keepalive bytes h = refl
keepalive_back (capabilities _) bytes h = cc
keepalive_back (offer _) bytes h = cc
keepalive_back (accept _) bytes h = cc
keepalive_back (decline _) bytes h = cc
keepalive_back (file_start _) bytes h = cc
keepalive_back (file_end _ _ _) bytes h = cc
keepalive_back (complete _) bytes h = cc
keepalive_back (cancel _) bytes h = cc
keepalive_back (failure _ _) bytes h = cc

pub keepalives-RoundTrips : RoundTrips keepalives
keepalives-RoundTrips = record { reads_back = keepalive_back }

abbrev pub no_hellos : Serde Hello
no_hellos = record { to_vec_named = λ h. none; from_slice = λ bytes. none }

pub no_hellos-RoundTrips : RoundTrips no_hellos
no_hellos-RoundTrips = record { reads_back = λ h bytes e. cc }

abbrev pub toy : Primitives
toy = record {
  sha256 = λ bytes. bytes;
  hkdf_expand = λ salt input about. some about;
  hmac_sha256 = λ key bytes. key;
  spake2_start = λ role password a b scalar. ((λ peer. some password), scalar ∷ []);
}

abbrev pub outside : Externals
outside = record {
  aead = plain;
  primitives = toy;
  hello_serde = no_hellos;
  control_serde = keepalives;
  build = codes "1";
  display = λ e. [];
}
