-- ===== src/Code.antt =====
-- code/mod.rs: transfer codes, a public room and a secret passphrase. The bytes of the operating
-- system's random source and the Unicode tables of `char` are parameters.
pub mod Words
pub mod Wordlist
pub mod Generate
pub mod Normal
pub mod Letters
pub mod Fresh
use rusp.Prelude.{
  ℕ, ◌+◌, ◌*◌, ◌%◌, Bool, true, false, not, ◌&&◌, ◌||◌, Option, none, some, List, [], ◌∷◌, ◌++◌,
  map, length, all, ltb, leb, ◌==◌, if◌then◌else◌, Result, ok, err, ◌>>=◌, ◌>>◌, fail_if, ok_or,
  Act, codes, as_bytes, split, from_le, get_elem?, text_eq,
}
use rusp.Error.{Text, CodeError, missing_secret, invalid_room, secret_too_short}

abbrev pub separator : ℕ
separator = b'-'

abbrev pub room_len : ℕ
room_len = 4

abbrev pub max_room_len : ℕ
max_room_len = 16

abbrev pub min_words : ℕ
min_words = 3

abbrev pub max_words : ℕ
max_words = 12

abbrev pub default_words : ℕ
default_words = 4

abbrev pub min_secret_chars : ℕ
min_secret_chars = 8

-- The octets of `ROOM_ALPHABET`.
abbrev pub room_alphabet : List ℕ
room_alphabet = codes "0123456789abcdefghjkmnpqrstvwxyz"

-- `b.is_ascii_lowercase() || b.is_ascii_digit()`
unfoldable pub is_room_byte : ℕ → Bool
is_room_byte b = (leb b'a' b && leb b b'z') || (leb b'0' b && leb b b'9')

-- RoomId, and its only field.
pub record RoomId : Type 0 where
  pub as_str : Text

unfoldable pub is_valid_room : Text → Bool
is_valid_room s =
    ltb 0 (length (as_bytes s))
    && (leb (length (as_bytes s)) max_room_len && all is_room_byte (as_bytes s))

-- RoomId::new
unfoldable pub room_new : Text → Result CodeError RoomId
room_new s = if is_valid_room s then ok (record { as_str = s }) else err (invalid_room s)

-- The part of `char` that depends on the Unicode tables of the standard library.
pub record Unicode : Type 0 where
  pub is_whitespace : ℕ → Bool
  pub to_lowercase : ℕ → List ℕ

pub record TransferCode : Type 0 where
  pub room : RoomId
  pub secret : Text

-- `Display` of a code.
unfoldable pub display : TransferCode → Text
display c = c.room.as_str ++ (separator ∷ c.secret)

unfoldable pub secret_bytes : TransferCode → List ℕ
secret_bytes c = as_bytes c.secret

abbrev pub is_empty : Text → Bool
is_empty [] = true
is_empty (c ∷ cs) = false

module _ (u : Unicode) where
  unfoldable pub is_separating : ℕ → Bool
  is_separating c = (c == separator) || (c == b'_') || u.is_whitespace c

  -- One turn of the loop of `normalize`; the state is `out` and `pending_sep`.
  unfoldable pub normalize_char : Text × Bool → ℕ → Text × Bool
  normalize_char (out, pending) c =
      if is_separating c
      then (out, not (is_empty out))
      else ((if pending then out ++ (separator ∷ []) else out) ++ u.to_lowercase c, false)

  unfoldable pub normalize_from : Text × Bool → Text → Text × Bool
  normalize_from state [] = state
  normalize_from state (c ∷ cs) = normalize_from (normalize_char state c) cs

  unfoldable pub normalize : Text → Text
  normalize input = (normalize_from ([], false) input).0

abbrev pub cons_first : ℕ → Option (Text × Text) → Option (Text × Text)
cons_first c none = none
cons_first c (some (before, after)) = some (c ∷ before, after)

-- str::split_once
unfoldable pub split_once : ℕ → Text → Option (Text × Text)
split_once c [] = none
split_once c (d ∷ ds) =
    let rest = split_once c ds in if d == c then some ([], ds) else cons_first d rest

-- `chars().filter(|c| *c != SEPARATOR).count()`
unfoldable pub count_chars : Text → ℕ
count_chars [] = 0
count_chars (c ∷ cs) = let rest = count_chars cs in if c == separator then rest else rest + 1

unfoldable pub parse_parts : Text × Text → Result CodeError TransferCode
parse_parts (room, secret) = do
  fail_if (is_empty secret) missing_secret
  fail_if (ltb (count_chars secret) min_secret_chars) (secret_too_short min_secret_chars)
  id ← room_new room
  ok (record { room = id; secret = secret })

-- TransferCode::parse
unfoldable pub parse : Unicode → Text → Result CodeError TransferCode
parse u input =
    let normalized = normalize u input in
    do
      fail_if (is_empty normalized) CodeError.empty
      parts ← ok_or (split_once separator normalized) missing_secret
      parse_parts parts
