-- ===== src/Config/Words.antt =====
-- config.rs and code/mod.rs: a configuration never asks for a code that is refused.
use Prim.Native.String.{String}
use rusp.Prelude.{
  ℕ, ◌≤◌, ◌≡◌, refl, ap, ◌&&◌, Bool-cases, inl, inr, Option, leb, Result, ok, err, Result-cases,
  le→not_ltb, arith,
}
use rusp.Error.{Error, Text, Message, IoError}
use rusp.Code.{min_words, max_words}
use rusp.Code.Generate.{check_count}
use rusp.Config.{Config, FileConfig, defaults, unwrap_or, into_config, parsed, from_file, apply_env}

ok-words : {a c : Config} → ◌≡◌ {A = Result Error Config} (ok a) (ok c) → a.words ≡ c.words
ok-words e = ap words_of e
  where
    words_of : Result Error Config → ℕ
    words_of (ok x) = x.words
    words_of (err x) = 0

into_config-words :
    (trim : Text → Text) (file : FileConfig) (path : Text) (c : Config)
    → into_config trim file path ≡ ok c
    → (min_words ≤ c.words) × (c.words ≤ max_words)
unfolding into_config
into_config-words trim file path c h = elim (Bool-cases (leb min_words n && leb n max_words)) [
  | inr bad ↦ cc (rw bad at h)
  | inl good ↦
      let same : n ≡ c.words = ok-words (rw good at h) in
      (ground (arith, same), ground (arith, same))
]
  where
    n : ℕ
    n = unwrap_or file.words defaults.words

-- A configuration that was read, whatever the environment adds to it, asks for a number of words
-- that the generator of codes accepts.
pub check_count-from_file :
    (trim : Text → Text) (from_toml : Text → Result Message FileConfig) (path : Text)
    (read : Result IoError Text) (var : String → Option Text) (c : Config)
    → from_file trim from_toml path read ≡ ok c
    → check_count (apply_env trim var c).words ≡ ok tt
unfolding from_file parsed apply_env check_count
check_count-from_file trim from_toml path (ok text) var c h = elim (Result-cases (from_toml text)) [
  | inr (why, failed) ↦ cc (rw failed at h)
  | inl (file, read) ↦
      let (few, many) = into_config-words trim file path c (rw read at h) in
      rw (le→not_ltb c.words min_words few, le→not_ltb max_words c.words many) refl
]
check_count-from_file trim from_toml path (err IoError.not_found) var c h = rw (← ok-words h) refl
check_count-from_file trim from_toml path (err IoError.unexpected_eof) var c h = cc
check_count-from_file trim from_toml path (err IoError.already_exists) var c h = cc
check_count-from_file trim from_toml path (err IoError.other) var c h = cc
