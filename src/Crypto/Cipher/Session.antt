-- ===== src/Crypto/Cipher/Session.antt =====
-- crypto/cipher.rs: a sealing key and an opening key in step, nonces, and streams of frames.
use rusp.Prelude.{
  ℕ, ◌+◌, ◌-◌, ◌<◌, ◌^◌, ◌≡◌, refl, sym, ap, ◌∙◌, false, some, List, ◌++◌, length, drop, ok,
  from_be, from_be-be_bytes, arith, length-append, take-append, drop-append, lt→ltb, le→not_ltb,
}
use rusp.Protocol.Frame.{FrameBuf, payload, payload_mut, push_slice}
use rusp.Protocol.Frame.Buffer.{
  IsFrame, push_slice-IsFrame, payload-push_slice, payload_mut-IsFrame, payload-payload_mut,
  length-payload,
}
use rusp.Crypto.Cipher.{
  Aead, tag_len, nonce_for, checked_add_one, SealingKey, seal, sealed, advance_seal, open_frame,
  opened, advance_open,
}
use rusp.Crypto.Cipher.Assumptions.{IsAead}

-- Two frames of one direction have the same nonce only if they have the same counter.
pub nonce_for-injective : (n m : ℕ) → n < 2 ^ 64 → m < 2 ^ 64 → nonce_for n ≡ nonce_for m → n ≡ m
unfolding nonce_for
nonce_for-injective n m hn hm e =
    sym (from_be-be_bytes 8 n hn) ∙ ap (λ bs. from_be (drop 4 bs)) e ∙ from_be-be_bytes 8 m hm

checked_add_one_lem : (n : ℕ) → n + 1 < 2 ^ 64 → checked_add_one n ≡ some (n + 1)
unfolding checked_add_one
checked_add_one_lem n h = rw (lt→ltb (n + 1) (2 ^ 64) h)

pub sealed_buffer :
    (b : FrameBuf) (text tag : List ℕ)
    → IsFrame b
    → length text ≡ length (payload b)
    → IsFrame (push_slice (payload_mut b text) tag)
      × (payload (push_slice (payload_mut b text) tag) ≡ text ++ tag)
sealed_buffer b text tag v same =
    let v' : IsFrame (payload_mut b text) =
      payload_mut-IsFrame b text v (same ∙ length-payload b v) in
    (
      push_slice-IsFrame (payload_mut b text) tag v',
      payload-push_slice (payload_mut b text) tag v'
          ∙ ap (λ l. l ++ tag) (payload-payload_mut b text v (same ∙ length-payload b v)),
    )

-- A frame that is a text and a tag of 16 bytes which the AEAD accepts.
open_accepted :
    (a : Aead) (key : List ℕ) (n : ℕ) (c tag text : List ℕ)
    → length tag ≡ tag_len
    → n + 1 < 2 ^ 64
    → a.decrypt_detached key (nonce_for n) c tag ≡ some text
    → open_frame a (record { key = key; counter = n; poisoned = false }) (c ++ tag)
      ≡ (ok tt, record { key = key; counter = n + 1; poisoned = false }, text)
unfolding open_frame opened advance_open
open_accepted a key n c tag text sixteen more e =
    let split : length (c ++ tag) - tag_len ≡ length c = omega (arith, length-append c tag) in
    rw (
      le→not_ltb (length (c ++ tag)) tag_len (omega (arith, length-append c tag)),
      split,
      take-append (length c) c tag refl,
      drop-append (length c) c tag refl,
      e,
      checked_add_one_lem n more,
    )

-- `seal` succeeds with the next counter and a frame that is 16 bytes longer, and an opening key at the
-- same counter gives the plaintext back and moves on with it.
pub open_frame-seal :
    (a : Aead) (s : SealingKey) (b : FrameBuf)
    → IsAead a
    → IsFrame b
    → length (payload b) < 2 ^ 32
    → s.counter + 1 < 2 ^ 64
    → (b' : FrameBuf) × (seal a s b ≡ (ok tt, record s { counter = s.counter + 1 }, b'))
      × IsFrame b'
      × (length (payload b') ≡ length (payload b) + tag_len)
      × (open_frame a (record { key = s.key; counter = s.counter; poisoned = false }) (payload b')
          ≡ (ok tt, record { key = s.key; counter = s.counter + 1; poisoned = false }, payload b))
unfolding seal sealed advance_seal
open_frame-seal a s b law v small more =
    let ((text, tag), e) = law.seals s.key (nonce_for s.counter) (payload b) small in
    let kept = law.keeps_length s.key (nonce_for s.counter) (payload b) text tag e in
    let sixteen = law.tags s.key (nonce_for s.counter) (payload b) text tag e in
    let (v', held) = sealed_buffer b text tag v kept in
    (
      push_slice (payload_mut b text) tag,
      rw (e, checked_add_one_lem s.counter more),
      v',
      ap length held ∙ length-append text tag ∙ cc (kept, sixteen),
      rw held (
          open_accepted a s.key s.counter text tag (payload b) sixteen more
            (law.opens s.key (nonce_for s.counter) (payload b) text tag e)),
    )
