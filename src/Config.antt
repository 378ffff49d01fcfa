-- ===== src/Config.antt =====
-- The configuration from environment variables (internal/config/config.go). `getenv` is
-- `os.Getenv`, and `parse_duration` is `time.ParseDuration`, whose result is in nanoseconds. A Go
-- int is its 64-bit pattern. `range` over a string yields runes, of which only '0' to '9' matter:
-- those are the bytes '0' to '9' of the string.
pub mod Laws
use wg_proxy.Common.{
  ℕ, ◌+◌, ◌-◌, ◌*◌, ◌%◌, ◌^◌, Bool, true, false, ◌&&◌, ◌||◌, Option, none, some, List, [], ◌∷◌,
  ◌==◌, leb, if◌then◌else◌,
}
use wg_proxy.Common.Bytes.{Bytes, codes, bytes_eq, is_empty}

pub record Config : Type 0 where
  pub config_dir : Bytes
  pub proxy_addr : Bytes
  pub admin_addr : Bytes
  pub base_port : ℕ
  pub health_interval : ℕ
  pub health_timeout : ℕ
  pub health_url : Bytes
  pub proxy_user : Bytes
  pub proxy_pass : Bytes
  pub country_port_base : ℕ
  pub wg_server_enabled : Bool
  pub wg_server_port : ℕ
  pub wg_server_addr : Bytes
  pub wg_server_subnet : Bytes
  pub wg_server_dns : Bytes

abbrev pub is_digit : ℕ → Bool
is_digit c = leb b'0' c && leb c b'9'

-- The loop of `envOrDefaultInt`.
unfoldable pub digits_value : ℕ → Bytes → ℕ
digits_value n [] = n
digits_value n (c ∷ s) = digits_value (if is_digit c then (n * 10 + (c - b'0')) % 2 ^ 64 else n) s

-- The functions below on the value of the variable.
unfoldable pub string_of : Bytes → Bytes → Bytes
string_of v def = if is_empty v then def else v

unfoldable pub int_of : Bytes → ℕ → ℕ
unfolding digits_value
int_of v def = if is_empty v then def else if digits_value 0 v == 0 then def else digits_value 0 v

abbrev or_default : Option ℕ → ℕ → ℕ
or_default none def = def
or_default (some d) def = d

is_one_of : Bytes → List Bytes → Bool
is_one_of v [] = false
is_one_of v (w ∷ ws) = bytes_eq v w || is_one_of v ws

abbrev pub yes_words : List Bytes
yes_words = codes "1" ∷ codes "true" ∷ codes "yes" ∷ codes "on" ∷ []

abbrev pub no_words : List Bytes
no_words = codes "0" ∷ codes "false" ∷ codes "no" ∷ codes "off" ∷ []

unfoldable pub bool_of : Bytes → Bool → Bool
unfolding is_one_of bytes_eq
bool_of v def =
    if is_empty v
    then def
    else if is_one_of v yes_words
    then true
    else if is_one_of v no_words
    then false
    else def

module _ (getenv : Bytes → Bytes) (parse_duration : Bytes → Option ℕ) where
  unfoldable pub env_or_default : Bytes → Bytes → Bytes
  unfolding string_of
  env_or_default key def = string_of (getenv key) def

  unfoldable pub env_or_default_int : Bytes → ℕ → ℕ
  unfolding int_of
  env_or_default_int key def = int_of (getenv key) def

  unfoldable pub env_or_default_duration : Bytes → ℕ → ℕ
  env_or_default_duration key def =
      if is_empty (getenv key) then def else or_default (parse_duration (getenv key)) def

  unfoldable pub env_or_default_bool : Bytes → Bool → Bool
  unfolding bool_of
  env_or_default_bool key def = bool_of (getenv key) def

  abbrev second : ℕ
  second = 1_000_000_000

  -- `Load`
  unfoldable pub load : Config
  unfolding env_or_default env_or_default_int env_or_default_duration env_or_default_bool
  load = record {
    config_dir = env_or_default (codes "WG_CONFIG_DIR") (codes "/etc/wg-proxy/configs");
    proxy_addr = env_or_default (codes "WG_PROXY_ADDR") (codes ":1080");
    admin_addr = env_or_default (codes "WG_ADMIN_ADDR") (codes ":8080");
    base_port = env_or_default_int (codes "WG_BASE_PORT") 10001;
    health_interval = env_or_default_duration (codes "WG_HEALTH_INTERVAL") (10 * second);
    health_timeout = env_or_default_duration (codes "WG_HEALTH_TIMEOUT") (5 * second);
    health_url = env_or_default (codes "WG_HEALTH_URL") [];
    proxy_user = env_or_default (codes "WG_PROXY_USER") [];
    proxy_pass = env_or_default (codes "WG_PROXY_PASS") [];
    country_port_base = env_or_default_int (codes "WG_COUNTRY_PORT_BASE") 1081;
    wg_server_enabled = env_or_default_bool (codes "WG_SERVER_ENABLED") true;
    wg_server_port = env_or_default_int (codes "WG_SERVER_PORT") 51820;
    wg_server_addr = env_or_default (codes "WG_SERVER_ADDR") [];
    wg_server_subnet = env_or_default (codes "WG_SERVER_SUBNET") (codes "10.100.0.0/24");
    wg_server_dns = env_or_default (codes "WG_SERVER_DNS") (codes "1.1.1.1");
  }
