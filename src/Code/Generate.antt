-- ===== src/Code/Generate.antt =====
-- code/mod.rs: random codes, and what the words of a code are worth.
use rusp.Prelude.{
  ℕ, zero, suc, ◌*◌, ◌%◌, Bool, ◌||◌, Option, none, some, List, [], ◌∷◌, ◌++◌, map, ltb, ◌==◌,
  if◌then◌else◌, Result, ok, err, map_err, Act, split, from_le,
}
use rusp.Prelude.Steps.{◌>>=◌, ◌>>◌, pure, lift}
use rusp.Error.{Text, CodeError, random, too_few_words, too_many_words}
use rusp.Code.{
  RoomId, TransferCode, separator, room_len, room_alphabet, min_words, max_words, is_empty,
}
use rusp.Code.Wordlist.{words, word_count, bits_per_word, contains, suggest}

-- An index into a table; beyond its end the code would panic.
unfoldable pub index_or : {A : Type 0} → A → List A → ℕ → A
index_or a [] i = a
index_or a (x ∷ xs) zero = x
index_or a (x ∷ xs) (suc i) = index_or a xs i

unfoldable pub room_char : ℕ → ℕ
room_char b = index_or 0 room_alphabet (b % 32)

unfoldable pub word_at : ℕ → Text
word_at n = index_or [] words (n % word_count)

-- `chunks_exact(2)`, each pair read in little-endian order.
unfoldable pub numbers : List ℕ → List ℕ
numbers [] = []
numbers (a ∷ []) = []
numbers (a ∷ b ∷ rest) = from_le (a ∷ b ∷ []) ∷ numbers rest

-- The loop that spells the secret; `i` counts the words that are in `secret` already.
unfoldable pub spell : ℕ → Text → List ℕ → Text
spell i secret [] = secret
spell i secret (n ∷ ns) =
    spell (suc i) ((if ltb 0 i then secret ++ (separator ∷ []) else secret) ++ word_at n) ns

unfoldable pub check_count : ℕ → Result CodeError (Unit {0})
check_count n =
    if ltb n min_words
    then err (too_few_words min_words (min_words * bits_per_word))
    else if ltb max_words n
    then err (too_many_words n)
    else ok tt

module _ {S : Type 0} (getrandom : ℕ → Act Text S (List ℕ)) where
  unfoldable pub fill_random : ℕ → Act CodeError S (List ℕ)
  fill_random n s = let (got, s') = getrandom n s in (map_err random got, s')

  -- RoomId::generate
  unfoldable pub room_generate : Act CodeError S RoomId
  room_generate = do bytes ← fill_random room_len; pure (record { as_str = map room_char bytes })

  -- TransferCode::generate
  unfoldable pub generate : ℕ → Act CodeError S TransferCode
  generate n = do
    lift (check_count n)
    raw ← fill_random (n * 2)
    room ← room_generate
    pure (record { room = room; secret = spell 0 [] (numbers raw) })

unfoldable pub count_bits : ℕ → List Text → Option ℕ
count_bits n [] = some (n * bits_per_word)
count_bits n (w ∷ ws) = let rest = count_bits (suc n) ws in if contains w then rest else none

unfoldable pub is_separator : ℕ → Bool
is_separator c = c == separator

unfoldable pub entropy_bits : TransferCode → Option ℕ
entropy_bits c = count_bits 0 (split is_separator c.secret)

pub record CodeWarning : Type 0 where
  pub word : Text
  pub suggestion : Option Text

unfoldable pub lint_words : List Text → List CodeWarning
lint_words [] = []
lint_words (w ∷ ws) =
    let rest = lint_words ws in
    if is_empty w || contains w then rest else record { word = w; suggestion = suggest w } ∷ rest

unfoldable pub lint : TransferCode → List CodeWarning
lint c = lint_words (split is_separator c.secret)
