-- ===== src/Crypto/Keys/Transcripts.antt =====
-- crypto/keys.rs: transcripts are unambiguous, and the two sides have mirrored keys.
use rusp.Prelude.{
  ℕ, ◌<◌, ◌^◌, ◌%◌, ◌≡◌, ◌≢◌, refl, sym, ap, ◌∙◌, List, [], ◌∷◌, ◌++◌, length, take, drop, ok,
  be_bytes, from_be, from_be-be_bytes, length-be_bytes, arith, append_assoc, take-append,
  drop-append, All, length-append,
}
use native.Mathlib.Nat.{mod-eq_of_lt}
use rusp.Protocol.Message.{sender, receiver}
use rusp.Crypto.Keys.{Primitives, SessionKeys, item, derive, purposes}

-- A labelled item that the two length fields can count.
abbrev pub Counted : List ℕ × List ℕ → Type 0
Counted (name, bytes) = (length name < 2 ^ 32) × (length bytes < 2 ^ 64)

-- Everything that was absorbed behind a common start.
abbrev pub items : List (List ℕ × List ℕ) → List ℕ
items [] = []
items ((name, bytes) ∷ rest) = item name bytes ++ items rest

take_first :
    (n : ℕ) (a b x y : List ℕ) → n ≡ length a → n ≡ length b → a ++ x ≡ b ++ y → (a ≡ b) × (x ≡ y)
take_first n a b x y ha hb e = (
  sym (take-append n a x ha) ∙ ap (take n) e ∙ take-append n b y hb,
  sym (drop-append n a x ha) ∙ ap (drop n) e ∙ drop-append n b y hb,
)

-- A counted field is read back, and so is what follows it.
field-injective :
    (k : ℕ) (a b x y : List ℕ)
    → length a < 256 ^ k
    → length b < 256 ^ k
    → be_bytes k (length a) ++ (a ++ x) ≡ be_bytes k (length b) ++ (b ++ y)
    → (a ≡ b) × (x ≡ y)
field-injective k a b x y ha hb e =
    let (counts, rest) =
      take_first k (be_bytes k (length a)) (be_bytes k (length b)) (a ++ x) (b ++ y)
        (sym (length-be_bytes k (length a))) (sym (length-be_bytes k (length b))) e in
    let same : length a ≡ length b =
      sym (from_be-be_bytes k (length a) ha)
      ∙ ap from_be counts
      ∙ from_be-be_bytes k (length b) hb in
    take_first (length a) a b x y refl same rest

item-append :
    (name bytes rest : List ℕ)
    → Counted (name, bytes)
    → item name bytes ++ rest
      ≡ be_bytes 4 (length name) ++ (name ++ (be_bytes 8 (length bytes) ++ (bytes ++ rest)))
unfolding item
item-append name bytes rest h = rw (mod-eq_of_lt h.0, mod-eq_of_lt h.1) (simp append_assoc)

item_ne_nil : (name bytes rest : List ℕ) → item name bytes ++ rest ≢ []
unfolding item
item_ne_nil name bytes rest e = absurd (
    omega (
      arith,
      ap length e,
      length-append (item name bytes) rest,
      length-append (be_bytes 4 (length name % 2 ^ 32))
          (name ++ (be_bytes 8 (length bytes % 2 ^ 64) ++ bytes)),
      length-be_bytes 4 (length name % 2 ^ 32),
    ))

-- Two series of labelled items that leave the same bytes in the hash are the same series: no byte
-- can move from one field into the next.
pub items-injective :
    (xs ys : List (List ℕ × List ℕ))
    → All Counted xs
    → All Counted ys
    → items xs ≡ items ys
    → xs ≡ ys
items-injective [] [] hx hy e = refl
items-injective [] ((m, b) ∷ ys) hx hy e = absurd (item_ne_nil m b (items ys) (sym e))
items-injective ((n, a) ∷ xs) [] hx hy e = absurd (item_ne_nil n a (items xs) e)
items-injective ((n, a) ∷ xs) ((m, b) ∷ ys) hx hy e =
    let whole = sym (item-append n a (items xs) hx.0) ∙ e ∙ item-append m b (items ys) hy.0 in
    let (names, behind) = field-injective 4 n m _ _ hx.0.0 hy.0.0 whole in
    let (datas, rest) = field-injective 8 a b (items xs) (items ys) hx.0.1 hy.0.1 behind in
    cc (names, datas, items-injective xs ys hx.1 hy.1 rest)

-- What the sender seals with, the receiver opens with, and each side's tag is what the other expects.
abbrev pub Mirrored : SessionKeys → SessionKeys → Type 0
Mirrored a b =
    (a.seal ≡ b.open_key)
    × (a.open_key ≡ b.seal)
    × (a.our_confirm ≡ b.peer_confirm)
    × (a.peer_confirm ≡ b.our_confirm)

-- From one exchange output and transcript the two sides derive mirrored keys.
pub derive-Mirrored :
    (prim : Primitives) (version : ℕ) (output transcript : List ℕ) (a b : SessionKeys)
    → derive prim sender version output transcript ≡ ok a
    → derive prim receiver version output transcript ≡ ok b
    → Mirrored a b
unfolding derive purposes
derive-Mirrored prim version output transcript a b ha hb = ground arith
