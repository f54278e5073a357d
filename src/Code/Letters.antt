-- ===== src/Code/Letters.antt =====
-- code/mod.rs: the characters of generated rooms and words.
use rusp.Prelude.{
  ℕ, zero, suc, ◌+◌, ◌%◌, ◌<◌, ◌≡◌, refl, ap, Bool, true, false, ◌&&◌, ◌||◌, Bool-cases, inl, inr,
  some, List, [], ◌∷◌, ◌++◌, length, all, All, ltb, leb, ◌==◌, as_bytes, encode_utf8, arith,
}
use rusp.Error.{Text}
use rusp.Code.{
  Unicode, separator, is_room_byte, is_separating, split_once, count_chars, room_alphabet,
}
use rusp.Code.Wordlist.{words, word_count}
use rusp.Code.Generate.{index_or, room_char, word_at}
use rusp.Code.Normal.{Plain}

-- Of the tables only this is relied on: digits and small letters are neither white space nor changed.
pub record KeepsRooms (u : Unicode) : Type 0 where
  pub no_space : (c : ℕ) → is_room_byte c ≡ true → u.is_whitespace c ≡ false
  pub lower : (c : ℕ) → is_room_byte c ≡ true → u.to_lowercase c ≡ c ∷ []

pub all-index_or :
    {A : Type 0} (p : A → Bool) (xs : List A) (a : A) (i : ℕ)
    → all p xs ≡ true
    → i < length xs
    → p (index_or a xs i) ≡ true
unfolding index_or
all-index_or p [] a i h less = absurd (omega arith)
all-index_or p (x ∷ xs) a zero h less = ground arith
all-index_or p (x ∷ xs) a (suc i) h less = all-index_or p xs a i (ground arith) (omega arith)

pub room_char_lem : (b : ℕ) → is_room_byte (room_char b) ≡ true
unfolding room_char is_room_byte
room_char_lem b = all-index_or is_room_byte room_alphabet 0 (b % 32) refl (omega arith)

-- The words of the list are four letters or more.
unfoldable pub is_word : Text → Bool
is_word w = leb 4 (length w) && all is_room_byte w

pub all-words : all is_word words ≡ true
unfolding words is_word is_room_byte
all-words = refl

pub length-words : length words ≡ 1024
unfolding words
length-words = refl

pub word_at_lem : (n : ℕ) → is_word (word_at n) ≡ true
unfolding word_at
word_at_lem n =
    all-index_or is_word words [] (n % word_count) all-words (omega (arith, length-words))

pub apart : (d : ℕ) → is_room_byte d ≡ true → ((d == separator) || (d == b'_') || false) ≡ false
unfolding is_room_byte
apart d e = ground arith

pub below_ascii : (d : ℕ) → is_room_byte d ≡ true → ltb d 0x80 ≡ true
unfolding is_room_byte
below_ascii d e = ground arith

module _ (u : Unicode) (laws : KeepsRooms u) where
  pub room_byte-Plain : (c : ℕ) → is_room_byte c ≡ true → Plain u c
  unfolding is_separating
  room_byte-Plain c h = (rw (laws.no_space c h) (apart c h), laws.lower c h)

  pub room_text-Plain : (t : Text) → all is_room_byte t ≡ true → All (Plain u) t
  room_text-Plain [] h = tt
  room_text-Plain (c ∷ t) h = (room_byte-Plain c (ground arith), room_text-Plain t (ground arith))

pub count_chars-append : (a b : Text) → count_chars (a ++ b) ≡ count_chars a + count_chars b
unfolding count_chars
count_chars-append [] b = omega arith
count_chars-append (c ∷ a) b = elim (Bool-cases (c == separator)) [
  | inl same ↦ rw same (count_chars-append a b)
  | inr other ↦ rw other (omega (arith, count_chars-append a b))
]

pub not_separator : (c : ℕ) → is_room_byte c ≡ true → (c == separator) ≡ false
unfolding is_room_byte
not_separator c h = ground arith

pub count_chars_room : (t : Text) → all is_room_byte t ≡ true → count_chars t ≡ length t
unfolding count_chars
count_chars_room [] h = refl
count_chars_room (c ∷ t) h =
    rw (not_separator c (ground arith)) (omega (arith, count_chars_room t (ground arith)))

pub split_once_room :
    (room secret : Text)
    → all is_room_byte room ≡ true
    → split_once separator (room ++ (separator ∷ secret)) ≡ some (room, secret)
unfolding split_once
split_once_room [] secret h = refl
split_once_room (c ∷ room) secret h =
    rw (not_separator c (ground arith), split_once_room room secret (ground arith)) refl

-- Digits and small letters are one byte each.
pub as_bytes_room : (t : Text) → all is_room_byte t ≡ true → as_bytes t ≡ t
unfolding as_bytes encode_utf8
as_bytes_room [] h = refl
as_bytes_room (c ∷ t) h =
    rw (below_ascii c (ground arith)) (ap (◌∷◌ c) (as_bytes_room t (ground arith)))
