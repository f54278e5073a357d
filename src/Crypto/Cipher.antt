-- ===== src/Crypto/Cipher.antt =====
-- crypto/cipher.rs: record protection by an AEAD with counter nonces. The AEAD itself
-- (ChaCha20-Poly1305, crate `chacha20poly1305`) is a parameter.
pub mod Assumptions
pub mod Session
pub mod Nonces
pub mod Ordered
use rusp.Prelude.{
  ℕ, ◌+◌, ◌-◌, ◌^◌, Bool, true, false, Option, none, some, List, [], ◌∷◌, ◌++◌, length, take, drop,
  replicate, ltb, if◌then◌else◌, Result, ok, err, be_bytes,
}
use rusp.Error.{CryptoError, decrypt, nonce_exhausted}
use rusp.Protocol.Frame.{FrameBuf, payload, payload_mut, push_slice}

abbrev pub key_len : ℕ
key_len = 32

abbrev pub tag_len : ℕ
tag_len = 16

abbrev pub nonce_len : ℕ
nonce_len = 12

-- `encrypt_inout_detached` and `decrypt_inout_detached` with no associated data: a key, a nonce and
-- the text; the result is the text of the same length with its tag, or the text.
pub record Aead : Type 0 where
  pub encrypt_detached : List ℕ → List ℕ → List ℕ → Option (List ℕ × List ℕ)
  pub decrypt_detached : List ℕ → List ℕ → List ℕ → List ℕ → Option (List ℕ)

-- Four zero bytes and the 64-bit counter, big endian.
unfoldable pub nonce_for : ℕ → List ℕ
nonce_for counter = replicate (nonce_len - 8) 0 ++ be_bytes 8 counter

-- u64::checked_add(1)
unfoldable pub checked_add_one : ℕ → Option ℕ
checked_add_one c = if ltb (c + 1) (2 ^ 64) then some (c + 1) else none

pub record SealingKey : Type 0 where
  pub key : List ℕ
  pub counter : ℕ

pub record OpeningKey : Type 0 where
  pub key : List ℕ
  pub counter : ℕ
  pub poisoned : Bool

unfoldable pub sealing_new : List ℕ → SealingKey
sealing_new key = record { key = key; counter = 0 }

unfoldable pub opening_new : List ℕ → OpeningKey
opening_new key = record { key = key; counter = 0; poisoned = false }

module _ (aead : Aead) where
  open aead use {encrypt_detached, decrypt_detached}

  -- The counter moves behind the sealed frame, and an overflow is an error that leaves it.
  unfoldable pub advance_seal :
      SealingKey → FrameBuf → Option ℕ → Result CryptoError (Unit {0}) × SealingKey × FrameBuf
  advance_seal k b (some c) = (ok tt, record k { counter = c }, b)
  advance_seal k b none = (err nonce_exhausted, k, b)

  unfoldable pub sealed :
      SealingKey
      → FrameBuf
      → Option (List ℕ × List ℕ)
      → Result CryptoError (Unit {0}) × SealingKey × FrameBuf
  sealed k b none = (err decrypt, k, b)
  sealed k b (some (text, tag)) =
      advance_seal k (push_slice (payload_mut b text) tag) (checked_add_one k.counter)

  -- The result, the key and the frame buffer.
  unfoldable pub seal :
      SealingKey → FrameBuf → Result CryptoError (Unit {0}) × SealingKey × FrameBuf
  seal k b = sealed k b (encrypt_detached k.key (nonce_for k.counter) (payload b))

  unfoldable pub poison : OpeningKey → List ℕ → Result CryptoError (Unit {0}) × OpeningKey × List ℕ
  poison k buf = (err decrypt, record k { poisoned = true }, buf)

  unfoldable pub advance_open :
      OpeningKey → List ℕ → Option ℕ → Result CryptoError (Unit {0}) × OpeningKey × List ℕ
  advance_open k buf (some c) = (ok tt, record k { counter = c }, buf)
  advance_open k buf none = (err nonce_exhausted, k, buf)

  unfoldable pub opened :
      OpeningKey → List ℕ → Option (List ℕ) → Result CryptoError (Unit {0}) × OpeningKey × List ℕ
  opened k buf none = poison k buf
  opened k buf (some text) = advance_open k text (checked_add_one k.counter)

  -- The result, the key and the buffer. The tag of a split at `len - 16` always has 16 bytes, so
  -- that its conversion cannot fail.
  unfoldable pub open_frame :
      OpeningKey → List ℕ → Result CryptoError (Unit {0}) × OpeningKey × List ℕ
  open_frame k buf =
      let split = length buf - tag_len in
      if k.poisoned
      then (err decrypt, k, buf)
      else if ltb (length buf) tag_len
      then poison k buf
      else opened k buf
          (decrypt_detached k.key (nonce_for k.counter) (take split buf) (drop split buf))
