-- ===== src/Protocol/Handshake/Confirmation.antt =====
-- protocol/channel.rs: what a finished handshake has verified, and what an unfinished one gives away.
use rusp.Prelude.{
  ℕ, ◌≡◌, refl, sym, ap, ◌∙◌, List, text_eq, text_eq→eq, Bool-cases, inl, inr, Result, ok, err, Act,
}
use rusp.Prelude.Steps.{continue, ◌>>=◌, lift}
use rusp.Error.{Error}
use rusp.Protocol.Stream.{Source, Sink, read_frame_required}
use rusp.Protocol.Message.{Role, Handshake, hello, pake, confirm}
use rusp.Protocol.Message.Codec.{decode}
use rusp.Protocol.Externals.{Externals}
use rusp.Protocol.Channel.{Channel}
use rusp.Protocol.Handshake.{
  Link, Greeting, Agreement, giving, hear, expect_confirm, wrong_message, check_tag, confirm_keys,
  open_channel, handshake, establish, exchange, link_new, greet, exchange_magic, say,
}
use rusp.Crypto.Cipher.{sealing_new, opening_new}
use rusp.Crypto.Keys.{Secret, confirm_tag, verify_confirm}

-- A step that succeeded, and the one behind it.
>>=-eq-ok :
    {E S A B : Type 0} (m : Act E S A) (f : A → Act E S B) (s : S) {b : B} {s' : S}
    → (m >>= f) s ≡ (ok b, s')
    → (a : A) × (t : S) × (m s ≡ (ok a, t)) × (f a t ≡ (ok b, s'))
>>=-eq-ok {E} {S} {A} {B} m f s {b} {s'} h = both (m s) h
  where
    both :
        (r : Result E A × S)
        → continue r f ≡ (ok b, s')
        → (a : A) × (t : S) × (r ≡ (ok a, t)) × (f a t ≡ (ok b, s'))
    both (ok a, t) e = (a, t, refl, e)
    both (err x, t) e = cc

pub ok-injective : {E A : Type 0} (a b : A) → ◌≡◌ {A = Result E A} (ok a) (ok b) → a ≡ b
ok-injective a b h = cc

giving-eq-ok : {E A B : Type 0} (a : A) (r : Result E B) {c : A} → giving a r ≡ ok c → a ≡ c
unfolding giving
giving-eq-ok a (ok b) h = cc
giving-eq-ok a (err e) h = cc

hear_lem : (l l' : Link) (bytes : List ℕ) → hear l ≡ (ok bytes, l') → l'.in_buf ≡ bytes
unfolding hear
hear_lem l l' bytes h =
    ap (λ r. r.1.in_buf) (sym h)
    ∙ giving-eq-ok _ (read_frame_required l.reader l.in_buf).0 (ap (λ r. r.0) h)

expect_confirm_lem : (m : Handshake) (tag : List ℕ) → expect_confirm m ≡ ok tag → m ≡ confirm tag
unfolding expect_confirm wrong_message
expect_confirm_lem (hello h) tag e = cc
expect_confirm_lem (pake bytes) tag e = cc
expect_confirm_lem (confirm bytes) tag e = cc

module _ (env : Externals) where
  open env use {primitives, hello_serde}

  check_tag_lem :
      (a : Agreement) (tag : List ℕ)
      → check_tag env a tag ≡ ok tt
      → tag ≡ confirm_tag primitives a.keys.peer_confirm a.digest
  unfolding check_tag verify_confirm confirm_tag
  check_tag_lem a tag h =
      elim (Bool-cases (text_eq (primitives.hmac_sha256 a.keys.peer_confirm a.digest) tag)) [
        | inl same ↦ sym (text_eq→eq _ tag same)
        | inr differ ↦ cc (rw differ at h)
      ]

  confirm_keys_lem :
      (a : Agreement) (l l' : Link)
      → confirm_keys env a l ≡ (ok tt, l')
      → decode hello_serde l'.in_buf
        ≡ ok (confirm (confirm_tag primitives a.keys.peer_confirm a.digest))
  unfolding confirm_keys
  confirm_keys_lem a l l' h =
      let checks : List ℕ → Act Error Link (Unit {0}) = λ tag. lift (check_tag env a tag) in
      let expects : Handshake → Act Error Link (Unit {0}) =
        λ msg. lift (expect_confirm msg) >>= checks in
      let decodes : List ℕ → Act Error Link (Unit {0}) =
        λ theirs. lift (decode hello_serde theirs) >>= expects in
      let (_, l1, _, h1) =
        >>=-eq-ok (say env (confirm (confirm_tag primitives a.keys.our_confirm a.digest)))
          (λ ours. hear >>= decodes) l h in
      let (theirs, l2, heard, h2) = >>=-eq-ok hear decodes l1 h1 in
      let (msg, l3, decoded, h3) = >>=-eq-ok (lift (decode hello_serde theirs)) expects l2 h2 in
      let (tag, l4, expected, h4) = >>=-eq-ok (lift (expect_confirm msg)) checks l3 h3 in
      let tagged : tag ≡ confirm_tag primitives a.keys.peer_confirm a.digest =
        check_tag_lem a tag (ap (λ r. r.0) h4) in
      let same : l'.in_buf ≡ theirs =
        ap (λ r. r.1.in_buf) (sym h4)
        ∙ ap (λ r. r.1.in_buf) (sym expected)
        ∙ ap (λ r. r.1.in_buf) (sym decoded)
        ∙ hear_lem l1 l2 theirs heard in
      ap (decode hello_serde) same
      ∙ ap (λ r. r.0) decoded
      ∙ ap ok (expect_confirm_lem msg tag (ap (λ r. r.0) expected) ∙ ap confirm tagged)

  open_channel_lem :
      (role : Role) (g : Greeting) (a : Agreement) (l l' : Link) (c : Channel)
      → open_channel env role g a l ≡ (ok c, l')
      → (c.seal_key ≡ sealing_new a.keys.seal)
        × (c.open_key ≡ opening_new a.keys.open_key)
        × (c.version ≡ g.version)
  unfolding open_channel
  open_channel_lem role g a l l' c h =
      let same = ok-injective _ c (ap (λ r. r.0) h) in
      (
        sym (ap (λ k. k.seal_key) same),
        sym (ap (λ k. k.open_key) same),
        sym (ap (λ k. k.version) same),
      )

  -- A handshake that hands out a channel has agreed on keys, and the last frame that it read was the
  -- confirmation of the peer: the tag of the transcript under the key that only the other side's
  -- role uses. The channel seals and opens with just the agreed keys, from counter zero.
  pub establish_confirmed :
      (read : Source) (write : Sink) (role : Role) (code : Secret) (scalar : ℕ) (c : Channel)
      (l : Link)
      → establish env read write role code scalar ≡ (ok c, l)
      → (g : Greeting) × (a : Agreement) × (before : Link) × (after : Link) × (exchange env role
            code scalar g before
          ≡ (ok a, after))
        × (decode hello_serde l.in_buf
            ≡ ok (confirm (confirm_tag primitives a.keys.peer_confirm a.digest)))
        × (c.seal_key ≡ sealing_new a.keys.seal)
        × (c.open_key ≡ opening_new a.keys.open_key)
        × (c.version ≡ g.version)
  unfolding establish handshake open_channel
  establish_confirmed read write role code scalar c l h =
      let opens : Greeting → Agreement → Unit {0} → Act Error Link Channel =
        λ g a _. open_channel env role g a in
      let confirms : Greeting → Agreement → Act Error Link Channel =
        λ g a. confirm_keys env a >>= opens g a in
      let agrees : Greeting → Act Error Link Channel =
        λ g. exchange env role code scalar g >>= confirms g in
      let (_, l1, _, h1) =
        >>=-eq-ok exchange_magic (λ _. greet env role >>= agrees) (link_new read write) h in
      let (g, l2, greeted, h2) = >>=-eq-ok (greet env role) agrees l1 h1 in
      let (a, l3, agreed, h3) = >>=-eq-ok (exchange env role code scalar g) (confirms g) l2 h2 in
      let (_, l4, confirmed, h4) = >>=-eq-ok (confirm_keys env a) (opens g a) l3 h3 in
      let (sealing, opening, version) = open_channel_lem role g a l4 l c h4 in
      (
        g,
        a,
        l2,
        l3,
        agreed,
        ap (λ k. decode hello_serde k) (ap (λ r. r.1.in_buf) (sym h4))
            ∙ confirm_keys_lem a l3 l4 confirmed,
        sealing,
        opening,
        version,
      )
