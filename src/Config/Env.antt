-- ===== src/Config/Env.antt =====
-- `Config::from_env` of src/config.rs. The environment and the file system are parameters: `none` is a
-- variable that is missing or no Unicode, and a file that cannot be read.
use goblin_nip05d.Text.Number.{parse_i64, parse_u64}
use goblin_nip05d.Prelude.Int.{pos}
use goblin_nip05d.RateLimit.{from_secs}
use goblin_nip05d.Text.{Text, lit, split, text_eq, trim}
use goblin_nip05d.Prelude.{
  Bool, List, Option, [], any, false, if◌then◌else◌, keep, map, none, not, some, ◌&&◌, ◌++◌, ◌==◌,
  ◌∷◌,
}
use goblin_nip05d.Config.{Check, Config, ConfigError, invalid, is_blank, valid, validate}
use goblin_nip05d.Platform.{Platform}
use goblin_nip05d.Names.{domain_reserved}
use mathlib.Core.Option

abbrev pub Env : Type 0
Env = Text → Option Text

abbrev pub Files : Type 0
Files = Text → Option Text

-- The results of `from_env`.
pub data Loaded : Type 0 where
  loaded : Config → Loaded
  unreadable : Loaded
  rejected : ConfigError → Loaded

unfoldable pub env_string : Env → Text → Text → Text
env_string env key default = elim (env key) [ none ↦ default | some v ↦ v ]

-- `env_parse` with the parser of its type; a text that does not parse counts as missing.
unfoldable pub env_parse {ℓ} : {A : Type ℓ} → (Text → Option A) → Env → Text → A → A
env_parse parse env key default = elim (env key) [
  | none ↦ default
  | some v ↦ elim (parse v) [ none ↦ default | some a ↦ a ]
]

-- `str::lines`: a last part that is empty is no line, and a line that ends in a line feed loses a
-- carriage return before it.
unfoldable pub strip_return : Text → Text
strip_return [] = []
strip_return (c ∷ []) = if c == 13 then [] else c ∷ []
strip_return (c ∷ d ∷ s) = c ∷ strip_return (d ∷ s)

unfoldable pub lines_of : List Text → List Text
unfolding strip_return
lines_of [] = []
lines_of (s ∷ []) = if is_blank s then [] else s ∷ []
lines_of (s ∷ t ∷ rest) = strip_return s ∷ lines_of (t ∷ rest)

unfoldable pub lines : Text → List Text
unfolding lines_of
lines s = lines_of (split (λ c. c == 10) s)

abbrev is_comment : Text → Bool
is_comment [] = false
is_comment (c ∷ s) = c == b'#'

-- `map(trim)`, then the filter, then `to_lowercase`.
unfoldable pub reserved_names : Platform → Text → List Text
unfolding lines
reserved_names pf s =
    map pf.to_lowercase (keep (λ l. not (is_blank l) && not (is_comment l)) (map trim (lines s)))

unfoldable pub load_reserved_file : Platform → Files → Text → Option (List Text)
load_reserved_file pf files path = Option.map (reserved_names pf) (files path)

-- The names of the optional file: `none` is an unreadable one.
unfoldable pub file_names : Platform → Env → Files → Option (List Text)
file_names pf env files = elim (env (lit "GOBLIN_RESERVED_FILE")) [
  | none ↦ some []
  | some path ↦ if is_blank path then some [] else load_reserved_file pf files path
]

unfoldable pub extra_names : Platform → Env → Files → Text → Option (List Text)
extra_names pf env files domain =
    Option.map (λ names. domain_reserved pf.to_lowercase domain ++ names) (file_names pf env files)

unfoldable pub env_bool : Platform → Env → Text → Bool → Bool
unfolding text_eq
env_bool pf env key default = elim (env key) [
  | none ↦ default
  | some v ↦
      any (text_eq (pf.to_lowercase (trim v))) (lit "1" ∷ lit "true" ∷ lit "yes" ∷ lit "on" ∷ [])
]

-- A trimmed variable; blank counts as missing.
unfoldable pub env_trimmed : Env → Text → Option Text
env_trimmed env key = elim (env key) [
  | none ↦ none
  | some v ↦ if is_blank (trim v) then none else some (trim v)
]

unfoldable pub relay_list : Text → List Text
relay_list s = keep (λ r. not (is_blank r)) (map trim (split (λ c. c == b',') s))

-- The record that `from_env` builds.
unfoldable pub read_config : Platform → Env → List Text → Config
unfolding relay_list env_trimmed env_bool env_parse env_string
read_config pf env reserved = record {
  domain = env_string env (lit "GOBLIN_DOMAIN") (lit "goblin.st");
  base_url = env_string env (lit "GOBLIN_BASE_URL") (lit "https://goblin.st");
  relays = relay_list (env_string env (lit "GOBLIN_RELAYS") (lit "wss://relay.floonet.dev"));
  bind_addr = env_string env (lit "NIP05_BIND") (lit "127.0.0.1:8191");
  db_path = env_string env (lit "NIP05_DB") (lit "/opt/goblin/nip05d/nip05.db");
  name_change_cooldown =
      from_secs (env_parse parse_u64 env (lit "GOBLIN_NAME_CHANGE_COOLDOWN_SECS") 600);
  auth_max_age_secs = env_parse parse_i64 env (lit "GOBLIN_AUTH_MAX_AGE_SECS") (pos 60);
  name_min = env_parse parse_u64 env (lit "GOBLIN_NAME_MIN") 3;
  name_max = env_parse parse_u64 env (lit "GOBLIN_NAME_MAX") 20;
  read_rate_max = env_parse parse_u64 env (lit "GOBLIN_READ_RATE_MAX") 120;
  read_rate_window = from_secs (env_parse parse_u64 env (lit "GOBLIN_READ_RATE_WINDOW_SECS") 60);
  write_rate_max = env_parse parse_u64 env (lit "GOBLIN_WRITE_RATE_MAX") 10;
  write_rate_window =
      from_secs (env_parse parse_u64 env (lit "GOBLIN_WRITE_RATE_WINDOW_SECS") 3600);
  extra_reserved = reserved;
  allow_transfers = env_bool pf env (lit "GOBLIN_ALLOW_TRANSFERS") false;
  grin_node_url = env_trimmed env (lit "GOBLIN_GRIN_NODE_URL");
  transfer_min_conf = env_parse parse_u64 env (lit "GOBLIN_TRANSFER_MIN_CONF") 10;
  transfer_max_offer_ttl =
      env_parse parse_i64 env (lit "GOBLIN_TRANSFER_MAX_OFFER_TTL") (pos 2592000);
  transfer_claim_grace = env_parse parse_i64 env (lit "GOBLIN_TRANSFER_CLAIM_GRACE") (pos 86400);
}

abbrev pub accept : Config → Check → Loaded
accept cfg valid = loaded cfg
accept cfg (invalid e) = rejected e

unfoldable pub finish_load : Platform → Env → Option (List Text) → Loaded
finish_load pf env none = unreadable
finish_load pf env (some reserved) =
    accept (read_config pf env reserved) (validate (read_config pf env reserved))

unfoldable pub from_env : Platform → Env → Files → Loaded
from_env pf env files =
    finish_load pf env
      (extra_names pf env files (env_string env (lit "GOBLIN_DOMAIN") (lit "goblin.st")))

-- `for_test`
unfoldable pub for_test : Platform → Config
for_test pf = record {
  domain = lit "goblin.st";
  base_url = lit "https://goblin.st";
  relays = lit "wss://relay.floonet.dev" ∷ [];
  bind_addr = lit "127.0.0.1:0";
  db_path = lit ":memory:";
  name_change_cooldown = from_secs 600;
  auth_max_age_secs = pos 60;
  name_min = 3;
  name_max = 20;
  read_rate_max = 100000;
  read_rate_window = from_secs 60;
  write_rate_max = 100000;
  write_rate_window = from_secs 3600;
  extra_reserved = domain_reserved pf.to_lowercase (lit "goblin.st");
  allow_transfers = false;
  grin_node_url = none;
  transfer_min_conf = 10;
  transfer_max_offer_ttl = pos 2592000;
  transfer_claim_grace = pos 86400;
}
