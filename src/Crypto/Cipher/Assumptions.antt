-- ===== src/Crypto/Cipher/Assumptions.antt =====
-- What crypto/cipher.rs relies on of ChaCha20-Poly1305 (crate `chacha20poly1305`).
use rusp.Prelude.{ℕ, ◌-◌, ◌<◌, ◌^◌, ◌≡◌, some, List, length, take, drop, get_elem?}
use rusp.Crypto.Cipher.{Aead, tag_len, nonce_for}

-- Correctness: a text that is not too long is sealed; it keeps its length, gets a tag of 16 bytes,
-- and opens under its key and nonce.
pub record IsAead (a : Aead) : Type 0 where
  pub seals :
      (key nonce text : List ℕ)
      → length text < 2 ^ 32
      → (c : List ℕ × List ℕ) × (a.encrypt_detached key nonce text ≡ some c)
  pub keeps_length :
      (key nonce text c tag : List ℕ)
      → a.encrypt_detached key nonce text ≡ some (c, tag)
      → length c ≡ length text
  pub tags :
      (key nonce text c tag : List ℕ)
      → a.encrypt_detached key nonce text ≡ some (c, tag)
      → length tag ≡ tag_len
  pub opens :
      (key nonce text c tag : List ℕ)
      → a.encrypt_detached key nonce text ≡ some (c, tag)
      → a.decrypt_detached key nonce c tag ≡ some text

-- A frame that is no forgery: if it opens under the nonce of some frame `n`, then it is what was sealed
-- as frame `n`, the text and the tag that encryption under that nonce has given for the text `n`. It is
-- asked of the frames that arrive and not of all there could be, since a tag can be guessed.
pub record IsNoForgery (a : Aead) (key : List ℕ) (texts : List (List ℕ)) (frame : List ℕ)
    : Type 0 where
  pub sealed_as :
      (n : ℕ) (opened : List ℕ)
      → n < 2 ^ 64
      → a.decrypt_detached key
          (nonce_for n)
          (take (length frame - tag_len) frame)
          (drop (length frame - tag_len) frame)
        ≡ some opened
      → (text : List ℕ) × (get_elem? texts n ≡ some text)
        × (a.encrypt_detached key (nonce_for n) text
            ≡ some (take (length frame - tag_len) frame, drop (length frame - tag_len) frame))
