-- ===== src/Tests/Crypto.antt =====
-- crypto/: concrete runs.
use rusp.Prelude.{
  ℕ, ◌+◌, ◌≡◌, refl, false, List, [], ◌∷◌, ok, arith, ◌++◌, codes, decimal, digits, IsPrefix,
  Distinct, length,
}
use rusp.Protocol.Frame.{FrameBuf, payload}
use rusp.Protocol.Frame.Buffer.{IsFrame}
use rusp.Crypto.Cipher.{SealingKey, OpeningKey, seal, open_frame, tag_len}
use rusp.Crypto.Cipher.Session.{open_frame-seal}
use rusp.Crypto.Cipher.Nonces.{seal_all, AllSealed, seal_all-Distinct}
use rusp.Crypto.Cipher.Ordered.{open_all, open_all-IsPrefix}
use rusp.Crypto.Keys.{SessionKeys, derive, purposes, expand, info}
use rusp.Crypto.Keys.Transcripts.{items-injective, Mirrored, derive-Mirrored}
use rusp.Tests.Instances.{
  plain, plain-IsAead, stamped, stamped-IsAead, sealed_texts, frame_at, frame_at-IsNoForgery,
  damaged, damaged-IsNoForgery, toy,
}
use rusp.Crypto.Cipher.Assumptions.{IsNoForgery}

abbrev opening : OpeningKey
opening = record { key = []; counter = 0; poisoned = false }

abbrev sealing : SealingKey
sealing = record { key = []; counter = 5 }

abbrev buffer : FrameBuf
buffer = record { bytes = 0 ∷ 0 ∷ 0 ∷ 0 ∷ 1 ∷ 2 ∷ 3 ∷ []; len = 7 }

buffer-IsFrame : IsFrame buffer
buffer-IsFrame = record { prefixed = omega arith; allocated = omega arith }

-- Both frames, the first once more, a damaged one, and the second again.
abbrev frames : List (List ℕ)
frames =
    frame_at 0 (8 ∷ 9 ∷ [])
    ∷ frame_at 1 (5 ∷ [])
    ∷ frame_at 0 (8 ∷ 9 ∷ [])
    ∷ damaged
    ∷ frame_at 1 (5 ∷ [])
    ∷ []

second : IsNoForgery stamped [] sealed_texts (frame_at 1 (5 ∷ []))
second = frame_at-IsNoForgery 1 (5 ∷ []) (omega arith) refl

first : IsNoForgery stamped [] sealed_texts (frame_at 0 (8 ∷ 9 ∷ []))
first = frame_at-IsNoForgery 0 (8 ∷ 9 ∷ []) (omega arith) refl

open_all-IsPrefix_example : IsPrefix (open_all stamped opening frames) sealed_texts
open_all-IsPrefix_example =
    open_all-IsPrefix stamped sealed_texts opening frames stamped-IsAead
      (first, (second, (first, (damaged-IsNoForgery, (second, tt)))))

seal_all-Distinct_example :
    (nonces : List (List ℕ)) × Distinct nonces
    × AllSealed stamped [] nonces (seal_all stamped sealing (buffer ∷ buffer ∷ []))
seal_all-Distinct_example = seal_all-Distinct stamped sealing (buffer ∷ buffer ∷ [])

open_frame-seal_example :
    (b' : FrameBuf) × (seal plain sealing buffer ≡ (ok tt, record sealing { counter = 6 }, b'))
    × IsFrame b'
    × (length (payload b') ≡ length (payload buffer) + tag_len)
    × (open_frame plain (record { key = []; counter = 5; poisoned = false }) (payload b')
        ≡ (ok tt, record { key = []; counter = 6; poisoned = false }, payload buffer))
unfolding payload
open_frame-seal_example =
    open_frame-seal plain sealing buffer plain-IsAead buffer-IsFrame (omega arith) (omega arith)

abbrev fields : List (List ℕ × List ℕ)
fields = (1 ∷ [], 2 ∷ 3 ∷ []) ∷ ([], 4 ∷ []) ∷ []

items-injective_example : fields ≡ fields
items-injective_example =
    items-injective fields fields ((omega arith, omega arith), ((omega arith, omega arith), tt))
      ((omega arith, omega arith), ((omega arith, omega arith), tt)) refl

abbrev key_for : List ℕ → List ℕ
key_for purpose = codes "rusp v1 " ++ purpose

abbrev sender_keys : SessionKeys
sender_keys = record {
  seal = key_for (codes "data sender-to-receiver");
  open_key = key_for (codes "data receiver-to-sender");
  our_confirm = key_for (codes "confirm sender");
  peer_confirm = key_for (codes "confirm receiver");
}

abbrev receiver_keys : SessionKeys
receiver_keys = record {
  seal = key_for (codes "data receiver-to-sender");
  open_key = key_for (codes "data sender-to-receiver");
  our_confirm = key_for (codes "confirm receiver");
  peer_confirm = key_for (codes "confirm sender");
}

derive-Mirrored_example : Mirrored sender_keys receiver_keys
unfolding derive purposes expand info decimal digits
derive-Mirrored_example = derive-Mirrored toy 1 [] [] sender_keys receiver_keys refl refl
