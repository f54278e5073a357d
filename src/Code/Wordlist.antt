-- ===== src/Code/Wordlist.antt =====
-- code/wordlist.rs: looking words up. A binary search and a partition point are what the standard
-- library documents for a sorted slice: the place of the word, and the first place that fails.
use rusp.Prelude.{
  ℕ, suc, ◌-◌, max, Bool, true, false, not, ◌&&◌, ◌||◌, Option, none, some, List, [], ◌∷◌, map,
  length, all, take, get_elem?, ltb, ◌==◌, if◌then◌else◌, text_eq, codes,
}
use rusp.Error.{Text}
use rusp.Code.Words

abbrev pub word_count : ℕ
word_count = 1024

abbrev pub bits_per_word : ℕ
bits_per_word = 10

unfoldable pub words : List Text
words = map codes Words.words

-- The order of strings.
unfoldable pub is_less : Text → Text → Bool
is_less [] [] = false
is_less [] (b ∷ bs) = true
is_less (a ∷ as') [] = false
is_less (a ∷ as') (b ∷ bs) = ltb a b || ((a == b) && is_less as' bs)

abbrev pub next : Option ℕ → Option ℕ
next none = none
next (some n) = some (suc n)

unfoldable pub position : Text → List Text → Option ℕ
position word [] = none
position word (w ∷ ws) = let rest = position word ws in if text_eq w word then some 0 else next rest

unfoldable pub index_of : Text → Option ℕ
index_of word = position word words

abbrev pub is_some : Option ℕ → Bool
is_some none = false
is_some (some _) = true

unfoldable pub contains : Text → Bool
contains word = is_some (index_of word)

abbrev pub unique_prefix : ℕ
unique_prefix = 3

-- `WORDS.partition_point(|w| *w < prefix)`
unfoldable pub partition_point : Text → List Text → ℕ
partition_point prefix [] = 0
partition_point prefix (w ∷ ws) =
    let rest = partition_point prefix ws in if is_less w prefix then suc rest else 0

unfoldable pub starts_with_text : Text → Text → Bool
starts_with_text [] w = true
starts_with_text (c ∷ cs) [] = false
starts_with_text (c ∷ cs) (d ∷ ds) = (c == d) && starts_with_text cs ds

abbrev pub abs_diff : ℕ → ℕ → ℕ
abs_diff a b = max (a - b) (b - a)

unfoldable pub suggested : Text → Option Text → Option Text
suggested word none = none
suggested word (some candidate) =
    if not (starts_with_text (take unique_prefix word) candidate) || text_eq candidate word
    then none
    else if ltb 2 (abs_diff (length candidate) (length word))
    then none
    else some candidate

-- For an ASCII word, bytes and characters are the same.
unfoldable pub suggest : Text → Option Text
suggest word =
    if not (all (λ c. ltb c 128) word) || ltb (length word) unique_prefix
    then none
    else suggested word (get_elem? words (partition_point (take unique_prefix word) words))
