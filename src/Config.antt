-- ===== src/Config.antt =====
-- config.rs: the configuration, from its defaults, a file and the environment. TOML, the environment
-- and the file system are parameters; durations are in milliseconds.
pub mod Words
use Prim.Native.String.{String}
use rusp.Prelude.{
  ℕ, ◌+◌, ◌*◌, Bool, true, false, not, ◌&&◌, ◌||◌, Option, none, some, List, [], ◌∷◌, ◌++◌, ltb,
  leb, ◌==◌, if◌then◌else◌, Result, ok, err, codes, decimal, starts_with,
}
use rusp.Error.{Error, Text, Message, IoError, io, lit, shown, number}
use rusp.Code.{min_words, max_words, default_words, is_empty}

pub data ConflictPolicy : Type 0 where
  rename overwrite skip fail : ConflictPolicy

abbrev pub default_relay_port : ℕ
default_relay_port = 9110

abbrev pub default_discovery_port : ℕ
default_discovery_port = 9111

-- How a policy is displayed.
unfoldable pub policy_text : ConflictPolicy → String
policy_text rename = "rename"
policy_text overwrite = "overwrite"
policy_text skip = "skip"
policy_text fail = "fail"

pub record RelayConfig : Type 0 where
  pub address : Text
  pub token : Option Text

pub record Config : Type 0 where
  pub relay : Option RelayConfig
  pub lan_discovery : Bool
  pub discovery_port : ℕ
  pub words : ℕ
  pub output_dir : Option Text
  pub on_conflict : ConflictPolicy
  pub connect_timeout : ℕ
  pub rendezvous_timeout : ℕ

abbrev pub defaults : Config
defaults = record {
  relay = none;
  lan_discovery = true;
  discovery_port = default_discovery_port;
  words = default_words;
  output_dir = none;
  on_conflict = rename;
  connect_timeout = 10000;
  rendezvous_timeout = 300000;
}

-- The shape of the file.
pub record FileConfig : Type 0 where
  pub relay : Option Text
  pub relay_token : Option Text
  pub lan_discovery : Option Bool
  pub discovery_port : Option ℕ
  pub words : Option ℕ
  pub output_dir : Option Text
  pub on_conflict : Option ConflictPolicy
  pub connect_timeout_secs : Option ℕ
  pub rendezvous_timeout_secs : Option ℕ

unfoldable pub unwrap_or : {A : Type 0} → Option A → A → A
unwrap_or none a = a
unwrap_or (some x) a = x

unfoldable pub or_else : {A : Type 0} → Option A → Option A → Option A
or_else none other = other
or_else (some x) other = some x

unfoldable pub non_empty : Option Text → Option Text
non_empty none = none
non_empty (some t) = if is_empty t then none else some t

unfoldable pub count_of : ℕ → Text → ℕ
count_of c [] = 0
count_of c (d ∷ ds) = let rest = count_of c ds in if d == c then rest + 1 else rest

-- Whether `]:` stands in the text.
unfoldable pub has_bracket_port : Text → Bool
has_bracket_port [] = false
has_bracket_port (c ∷ cs) =
    let rest = has_bracket_port cs in ((c == b']') && starts_with b':' cs) || rest

unfoldable pub secs : Option ℕ → ℕ → ℕ
secs none millis = millis
secs (some s) millis = s * 1000

-- `str::trim` depends on the Unicode tables; `var` looks an environment variable up.
module _ (trim : Text → Text) where
  unfoldable pub with_port : Text → Text
  with_port addr = addr ++ (b':' ∷ decimal default_relay_port)

  unfoldable pub normalize_trimmed : Text → Text
  normalize_trimmed addr =
      if starts_with b'[' addr
      then (if has_bracket_port addr then addr else with_port addr)
      else if count_of b':' addr == 0
      then with_port addr
      else if count_of b':' addr == 1
      then addr
      else with_port ((b'[' ∷ addr) ++ (b']' ∷ []))

  unfoldable pub normalize_relay_address : Text → Text
  normalize_relay_address addr = normalize_trimmed (trim addr)

  unfoldable pub relay_new : Text → Option Text → RelayConfig
  relay_new address token = record {
    address = normalize_relay_address address;
    token = non_empty token;
  }

  unfoldable pub file_relay : Option Text → Option Text → Option RelayConfig
  file_relay none token = none
  file_relay (some address) token = some (relay_new address token)

  -- The check of `words` and the rest of `FileConfig::into_config`.
  unfoldable pub into_config : FileConfig → Text → Result Error Config
  into_config file path =
      let n = unwrap_or file.words defaults.words in
      if not (leb min_words n && leb n max_words)
      then err (
          Error.config (
            shown path
            ∷ lit ": `words` must be between "
            ∷ number min_words
            ∷ lit " and "
            ∷ number max_words
            ∷ lit ", got "
            ∷ number n
            ∷ []))
      else ok (record {
        relay = file_relay (non_empty file.relay) file.relay_token;
        lan_discovery = unwrap_or file.lan_discovery defaults.lan_discovery;
        discovery_port = unwrap_or file.discovery_port defaults.discovery_port;
        words = n;
        output_dir = file.output_dir;
        on_conflict = unwrap_or file.on_conflict defaults.on_conflict;
        connect_timeout = secs file.connect_timeout_secs defaults.connect_timeout;
        rendezvous_timeout = secs file.rendezvous_timeout_secs defaults.rendezvous_timeout;
      })

  module _ (from_toml : Text → Result Message FileConfig) where
    unfoldable pub parsed : Text → Result Message FileConfig → Result Error Config
    parsed path (ok file) = into_config file path
    parsed path (err why) = err (Error.config (shown path ∷ why))

    unfoldable pub from_file : Text → Result IoError Text → Result Error Config
    from_file path (ok text) = parsed path (from_toml text)
    from_file path (err IoError.not_found) = ok defaults
    from_file path (err e) = err (io (lit "read config " ∷ shown path ∷ []) e)

  unfoldable pub non_blank : Option Text → Option Text
  non_blank none = none
  non_blank (some t) = if is_empty (trim t) then none else some t

  unfoldable pub token_of : Option RelayConfig → Option Text
  token_of none = none
  token_of (some r) = r.token

  unfoldable pub set_token : Option Text → Option RelayConfig → Option RelayConfig
  set_token (some t) (some r) = some (record r { token = some t })
  set_token token relay = relay

  unfoldable pub env_relay : Option Text → Option Text → Option RelayConfig → Option RelayConfig
  env_relay (some addr) token relay = some (relay_new addr (or_else token (token_of relay)))
  env_relay none token relay = set_token token relay

  -- RUSP_RELAY, RUSP_RELAY_TOKEN and RUSP_OUTPUT_DIR.
  unfoldable pub apply_env : (String → Option Text) → Config → Config
  apply_env var c = record c {
    relay = env_relay (non_blank (var "RUSP_RELAY")) (non_blank (var "RUSP_RELAY_TOKEN")) c.relay;
    output_dir = or_else (non_blank (var "RUSP_OUTPUT_DIR")) c.output_dir;
  }

unfoldable pub resolved_output_dir : Config → Text
resolved_output_dir c = unwrap_or c.output_dir (codes ".")
