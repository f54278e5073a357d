-- ===== src/Tests/Codes.antt =====
-- The theorems about codes and configurations, applied.
use Prim.Native.String.{String}
use rusp.Prelude.{
  ℕ, ◌≤◌, ◌≡◌, refl, true, false, Option, none, some, List, [], ◌∷◌, All, codes, Result, ok, Act,
  ◌==◌, replicate, as_bytes, encode_utf8, to_ascii_lowercase, arith,
}
use rusp.Error.{Text, Message}
use rusp.Code.{
  Unicode, TransferCode, min_secret_chars, display, is_separating, is_room_byte, is_valid_room,
  count_chars, parse, parse_parts, normalize, normalize_from, normalize_char, split_once, room_new,
}
use rusp.Code.Normal.{IsUnicode, parse-display}
use rusp.Code.Letters.{KeepsRooms}
use rusp.Code.Fresh.{parse-generate}
use rusp.Code.Generate.{generate, check_count}
use rusp.Config.{
  FileConfig, defaults, from_file, apply_env, parsed, into_config, unwrap_or, file_relay, secs,
  non_empty,
}
use rusp.Config.Words.{check_count-from_file}

-- The tables, for ASCII.
abbrev ascii : Unicode
ascii = record { is_whitespace = λ c. c == 32; to_lowercase = λ c. to_ascii_lowercase c ∷ [] }

lowered_lem :
    (c : ℕ)
    → is_separating ascii c ≡ false
    → All
        (λ d. (is_separating ascii d ≡ false) × (ascii.to_lowercase d ≡ d ∷ []))
        (ascii.to_lowercase c)
unfolding is_separating to_ascii_lowercase
lowered_lem c h = ((ground arith, ground arith), tt)

ascii-IsUnicode : IsUnicode ascii
ascii-IsUnicode = record { some_char = λ c h. cc; lowered = lowered_lem }

lower_room : (c : ℕ) → is_room_byte c ≡ true → to_ascii_lowercase c ≡ c
unfolding is_room_byte to_ascii_lowercase
lower_room c h = ground arith

no_space_lem : (c : ℕ) → is_room_byte c ≡ true → (c == 32) ≡ false
unfolding is_room_byte
no_space_lem c h = ground arith

ascii-KeepsRooms : KeepsRooms ascii
ascii-KeepsRooms = record { no_space = no_space_lem; lower = λ c h. rw (lower_room c h) refl }

abbrev typed : Text
typed = codes " K7m2 Cotton_harbor-"

abbrev code : TransferCode
code = record { room = record { as_str = codes "k7m2" }; secret = codes "cotton-harbor" }

parse-display_example :
    (parse ascii (display code) ≡ ok code)
    × (is_valid_room code.room.as_str ≡ true)
    × (min_secret_chars ≤ count_chars code.secret)
unfolding parse parse_parts normalize normalize_from normalize_char is_separating to_ascii_lowercase
    split_once room_new is_valid_room is_room_byte as_bytes encode_utf8 count_chars
parse-display_example = parse-display ascii ascii-IsUnicode typed code refl

-- A source of sevens.
abbrev sevens : ℕ → Act Text (Unit {0}) (List ℕ)
sevens n s = (ok (replicate n 7), s)

parse-generate_example :
    (c : TransferCode) × (generate sevens 4 tt ≡ (ok c, tt)) × (parse ascii (display c) ≡ ok c)
parse-generate_example =
    parse-generate sevens ascii 4 tt tt tt (replicate 8 7) (replicate 4 7) ascii-KeepsRooms
      (omega arith) (omega arith) refl refl refl refl

abbrev file : FileConfig
file = record {
  relay = none;
  relay_token = none;
  lan_discovery = none;
  discovery_port = none;
  words = some 6;
  output_dir = none;
  on_conflict = none;
  connect_timeout_secs = none;
  rendezvous_timeout_secs = none;
}

abbrev no_trim : Text → Text
no_trim t = t

abbrev toml : Text → Result Message FileConfig
toml t = ok file

abbrev no_env : String → Option Text
no_env key = none

check_count-from_file_example :
    check_count (apply_env no_trim no_env (record defaults { words = 6 })).words ≡ ok tt
unfolding parsed from_file into_config unwrap_or file_relay secs non_empty
check_count-from_file_example =
    check_count-from_file no_trim toml [] (ok []) no_env (record defaults { words = 6 }) refl
