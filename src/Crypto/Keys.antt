-- ===== src/Crypto/Keys.antt =====
-- crypto/keys.rs and crypto/pake.rs: the transcript, key derivation, key confirmation and the
-- password-authenticated key exchange. The primitives are parameters.
pub mod Transcripts
use Prim.Native.String.{String}
use rusp.Prelude.{
  ℕ, ◌%◌, ◌^◌, Bool, true, false, Option, none, some, List, [], ◌∷◌, ◌++◌, length, text_eq,
  if◌then◌else◌, codes, decimal, as_bytes, be_bytes, Result, ok, err, ok_or, ◌>>=◌,
}
use rusp.Error.{Text, CryptoError, key_mismatch, pake, kdf}
use rusp.Protocol.Message.{Role, sender, receiver, label}

-- SHA-256, HKDF-SHA256 (salt, input, info; 32 bytes of output), HMAC-SHA256 (key, message), SPAKE2
-- over Ed25519 (the side, password, both identities and the ephemeral scalar: the message to send,
-- and what `finish` makes of the peer's message).
pub record Primitives : Type 0 where
  pub sha256 : List ℕ → List ℕ
  pub hkdf_expand : List ℕ → List ℕ → List ℕ → Option (List ℕ)
  pub hmac_sha256 : List ℕ → List ℕ → List ℕ
  pub spake2_start : Role → List ℕ → List ℕ → List ℕ → ℕ → (List ℕ → Option (List ℕ)) × List ℕ

abbrev pub domain : List ℕ
domain = codes "rusp transcript v1"

-- `Sha256::update` appends: the state of the hasher is what it has absorbed.
abbrev pub Transcript : Type 0
Transcript = List ℕ

unfoldable pub transcript_new : Transcript
transcript_new = be_bytes 4 (length domain % 2 ^ 32) ++ domain

-- A length in four bytes, the label, a length in eight bytes, the data.
unfoldable pub item : List ℕ → List ℕ → List ℕ
item name bytes =
    be_bytes 4 (length name % 2 ^ 32) ++ (name ++ (be_bytes 8 (length bytes % 2 ^ 64) ++ bytes))

unfoldable pub absorb : Transcript → String → List ℕ → Transcript
absorb t name bytes = t ++ item (codes name) bytes

unfoldable pub absorb_u16 : Transcript → String → ℕ → Transcript
absorb_u16 t name value = absorb t name (be_bytes 2 value)

pub record SessionKeys : Type 0 where
  pub seal : List ℕ
  pub open_key : List ℕ
  pub our_confirm : List ℕ
  pub peer_confirm : List ℕ

-- The public and the secret half of a transfer code, as the handshake uses them.
pub record Secret : Type 0 where
  pub room : Text
  pub secret : Text

module _ (prim : Primitives) where
  open prim use {sha256, hkdf_expand, hmac_sha256, spake2_start}

  unfoldable pub transcript_finish : Transcript → List ℕ
  transcript_finish t = sha256 t

  unfoldable pub info : ℕ → String → List ℕ
  info version purpose = codes "rusp v" ++ (decimal version ++ (codes " " ++ codes purpose))

  unfoldable pub expand : List ℕ → List ℕ → List ℕ → Result CryptoError (List ℕ)
  expand salt input about = ok_or (hkdf_expand salt input about) kdf

  -- The purposes of the four keys: to seal, to open, our tag, the peer's tag.
  unfoldable pub purposes : Role → String × String × String × String
  purposes sender =
      ("data sender-to-receiver", "data receiver-to-sender", "confirm sender", "confirm receiver")
  purposes receiver =
      ("data receiver-to-sender", "data sender-to-receiver", "confirm receiver", "confirm sender")

  unfoldable pub derive : Role → ℕ → List ℕ → List ℕ → Result CryptoError SessionKeys
  derive role version pake_output transcript =
      let (to_seal, to_open, ours, theirs) = purposes role in
      do
        seal_key ← expand transcript pake_output (info version to_seal)
        opening_key ← expand transcript pake_output (info version to_open)
        our_key ← expand transcript pake_output (info version ours)
        peer_key ← expand transcript pake_output (info version theirs)
        ok (record {
          seal = seal_key;
          open_key = opening_key;
          our_confirm = our_key;
          peer_confirm = peer_key;
        })

  unfoldable pub confirm_tag : List ℕ → List ℕ → List ℕ
  confirm_tag key transcript = hmac_sha256 key transcript

  -- `verify_slice` compares the whole tag.
  unfoldable pub verify_confirm : List ℕ → List ℕ → List ℕ → Result CryptoError (Unit {0})
  verify_confirm key transcript tag =
      if text_eq (hmac_sha256 key transcript) tag then ok tt else err key_mismatch

  unfoldable pub identity : Role → Secret → List ℕ
  identity role code = codes "rusp:" ++ (codes (label role) ++ (codes ":" ++ as_bytes code.room))

  unfoldable pub pake_start : Role → Secret → ℕ → (List ℕ → Option (List ℕ)) × List ℕ
  pake_start role code scalar =
      spake2_start role (as_bytes code.secret) (identity sender code) (identity receiver code)
        scalar

  unfoldable pub pake_finish : (List ℕ → Option (List ℕ)) → List ℕ → Result CryptoError (List ℕ)
  pake_finish state peer_message = ok_or (state peer_message) pake
