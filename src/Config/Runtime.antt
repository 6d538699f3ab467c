-- ===== src/Config/Runtime.antt =====
-- internal/config/runtime.go: the settings from flags and the environment, and the structs that
-- they are converted to. The flags are those of the command line, as package flag has parsed them.
pub mod Values
pub mod Precedence
use tsdnsreflector.Prelude.{
  ℕ, ◌%◌, ◌^◌, Text, Bool, true, false, not, ◌||◌, Option, none, some, List, [], codes, is_empty,
  if◌then◌else◌,
}
use tsdnsreflector.Prelude.Int.{ℤ, pos}
use tsdnsreflector.Prelude.Split.{split}
use tsdnsreflector.Config.Runtime.Values.{
  Env, getenv, or_default, default_env, default_bool, default_int, default_uint32,
}

pub record RuntimeConfig : Type 0 where
  pub hostname : Text
  pub dns_port : ℤ
  pub http_port : ℤ
  pub bind_address : Text
  pub default_ttl : ℕ
  pub health_enabled : Bool
  pub health_path : Text
  pub metrics_enabled : Bool
  pub metrics_path : Text
  pub ts_auth_key : Text
  pub ts_state : Text
  pub ts_hostname : Text
  pub ts_state_dir : Text
  pub ts_exit_node : Bool
  pub ts_auto_split_dns : Bool
  pub ts_oauth_url : Text
  pub ts_oauth_tags : Text
  pub ts_oauth_ephemeral : Bool
  pub ts_oauth_preauthorized : Bool
  pub client_id_file : Text
  pub client_secret_file : Text
  pub ts_api_client_id : Text
  pub ts_api_client_secret : Text
  pub log_level : Text
  pub log_format : Text
  pub log_queries : Bool
  pub log_file : Text
  -- What `defaultTTLFlag` points to, a uint64.
  pub default_ttl_flag : Option ℕ

pub record OAuthConfig : Type 0 where
  pub client_id : Text
  pub client_secret : Text
  pub client_id_file : Text
  pub client_secret_file : Text
  pub base_url : Text
  pub tags : List Text
  pub ephemeral : Bool
  pub preauthorized : Bool

pub record TailscaleConfig : Type 0 where
  pub auth_key : Text
  pub hostname : Text
  pub state_dir : Text
  pub state_secret : Text
  pub advertise_as_exit_node : Bool
  pub auto_split_dns : Bool
  pub oauth : Option OAuthConfig

pub record ServerConfig : Type 0 where
  pub hostname : Text
  pub dns_port : ℤ
  pub http_port : ℤ
  pub bind_address : Text
  pub default_ttl : ℕ
  pub health_enabled : Bool
  pub health_path : Text
  pub metrics_enabled : Bool
  pub metrics_path : Text

pub record LoggingConfig : Type 0 where
  pub level : Text
  pub format : Text
  pub log_queries : Bool
  pub log_file : Text

-- The flags that the command line sets.
pub record Flags : Type 0 where
  pub hostname : Option Text
  pub dns_port : Option ℤ
  pub http_port : Option ℤ
  pub bind_address : Option Text
  pub default_ttl : Option ℕ
  pub health : Option Bool
  pub health_path : Option Text
  pub metrics : Option Bool
  pub metrics_path : Option Text
  pub log_level : Option Text
  pub log_format : Option Text
  pub log_queries : Option Bool
  pub log_file : Option Text

-- `NewRuntimeConfig`: each flag's variable starts with the flag's default; the fields that it does
-- not set have Go's zero values.
unfoldable pub new_runtime_config : Env → RuntimeConfig
unfolding default_env default_bool default_int default_uint32
new_runtime_config env = record {
  hostname = default_env env (codes "TSDNS_HOSTNAME") (codes "tsdnsreflector");
  dns_port = default_int env (codes "TSDNS_DNS_PORT") (pos 53);
  http_port = default_int env (codes "TSDNS_HTTP_PORT") (pos 8080);
  bind_address = default_env env (codes "TSDNS_BIND_ADDRESS") (codes "0.0.0.0");
  default_ttl = default_uint32 env (codes "TSDNS_DEFAULT_TTL") 300;
  health_enabled = default_bool env (codes "TSDNS_HEALTH_ENABLED") true;
  health_path = default_env env (codes "TSDNS_HEALTH_PATH") (codes "/health");
  metrics_enabled = default_bool env (codes "TSDNS_METRICS_ENABLED") true;
  metrics_path = default_env env (codes "TSDNS_METRICS_PATH") (codes "/metrics");
  ts_auth_key = [];
  ts_state = [];
  ts_hostname = [];
  ts_state_dir = [];
  ts_exit_node = false;
  ts_auto_split_dns = false;
  ts_oauth_url = [];
  ts_oauth_tags = [];
  ts_oauth_ephemeral = false;
  ts_oauth_preauthorized = false;
  client_id_file = [];
  client_secret_file = [];
  ts_api_client_id = [];
  ts_api_client_secret = [];
  log_level = default_env env (codes "TSDNS_LOG_LEVEL") (codes "info");
  log_format = default_env env (codes "TSDNS_LOG_FORMAT") (codes "json");
  log_queries = default_bool env (codes "TSDNS_LOG_QUERIES") false;
  log_file = default_env env (codes "TSDNS_LOG_FILE") [];
  default_ttl_flag = some (default_uint32 env (codes "TSDNS_DEFAULT_TTL") 300);
}

abbrev pub parse_ttl_flag : Option ℕ → Option ℕ → Option ℕ
parse_ttl_flag given none = none
parse_ttl_flag given (some d) = some (or_default given d)

-- `flag.Parse`: a flag of the command line sets the variable that it was defined with.
unfoldable pub parse : Flags → RuntimeConfig → RuntimeConfig
parse flags rc = record rc {
  hostname = or_default flags.hostname rc.hostname;
  dns_port = or_default flags.dns_port rc.dns_port;
  http_port = or_default flags.http_port rc.http_port;
  bind_address = or_default flags.bind_address rc.bind_address;
  health_enabled = or_default flags.health rc.health_enabled;
  health_path = or_default flags.health_path rc.health_path;
  metrics_enabled = or_default flags.metrics rc.metrics_enabled;
  metrics_path = or_default flags.metrics_path rc.metrics_path;
  log_level = or_default flags.log_level rc.log_level;
  log_format = or_default flags.log_format rc.log_format;
  log_queries = or_default flags.log_queries rc.log_queries;
  log_file = or_default flags.log_file rc.log_file;
  default_ttl_flag = parse_ttl_flag flags.default_ttl rc.default_ttl_flag;
}

-- `uint32(*rc.defaultTTLFlag)` keeps the low 32 bits.
abbrev pub ttl_of_flag : Option ℕ → ℕ → ℕ
ttl_of_flag none ttl = ttl
ttl_of_flag (some n) ttl = n % 2 ^ 32

unfoldable pub setup_env_only_values : Env → RuntimeConfig → RuntimeConfig
unfolding getenv default_env default_bool
setup_env_only_values env rc = record rc {
  default_ttl = ttl_of_flag rc.default_ttl_flag rc.default_ttl;
  ts_auth_key = getenv env (codes "TS_AUTHKEY");
  ts_state = getenv env (codes "TS_STATE");
  client_id_file = getenv env (codes "CLIENT_ID_FILE");
  client_secret_file = getenv env (codes "CLIENT_SECRET_FILE");
  ts_api_client_id = getenv env (codes "TS_API_CLIENT_ID");
  ts_api_client_secret = getenv env (codes "TS_API_CLIENT_SECRET");
  ts_hostname = default_env env (codes "TSDNS_TS_HOSTNAME") rc.hostname;
  ts_state_dir = default_env env (codes "TSDNS_TS_STATE_DIR") (codes "/tmp/tailscale");
  ts_exit_node = default_bool env (codes "TSDNS_TS_EXIT_NODE") false;
  ts_auto_split_dns = default_bool env (codes "TSDNS_TS_AUTO_SPLIT_DNS") false;
  ts_oauth_url = default_env env (codes "TSDNS_TS_OAUTH_URL") (codes "https://login.tailscale.com");
  ts_oauth_tags = default_env env (codes "TSDNS_TS_OAUTH_TAGS") (codes "tag:dns");
  ts_oauth_ephemeral = default_bool env (codes "TSDNS_TS_OAUTH_EPHEMERAL") true;
  ts_oauth_preauthorized = default_bool env (codes "TSDNS_TS_OAUTH_PREAUTHORIZED") true;
}

-- `os.ReadFile`; `none` is an error.
unfoldable pub get_oauth_client_id : (Text → Option Text) → RuntimeConfig → Option Text
get_oauth_client_id read_file rc =
    if is_empty rc.client_id_file then some rc.ts_api_client_id else read_file rc.client_id_file

unfoldable pub get_oauth_client_secret : (Text → Option Text) → RuntimeConfig → Option Text
get_oauth_client_secret read_file rc =
    if is_empty rc.client_secret_file
    then some rc.ts_api_client_secret
    else read_file rc.client_secret_file

unfoldable pub to_server_config : RuntimeConfig → ServerConfig
to_server_config rc = record {
  hostname = rc.hostname;
  dns_port = rc.dns_port;
  http_port = rc.http_port;
  bind_address = rc.bind_address;
  default_ttl = rc.default_ttl;
  health_enabled = rc.health_enabled;
  health_path = rc.health_path;
  metrics_enabled = rc.metrics_enabled;
  metrics_path = rc.metrics_path;
}

unfoldable pub to_logging_config : RuntimeConfig → LoggingConfig
to_logging_config rc = record {
  level = rc.log_level;
  format = rc.log_format;
  log_queries = rc.log_queries;
  log_file = rc.log_file;
}

-- An OAuth value is present.
abbrev pub has_oauth : RuntimeConfig → Bool
has_oauth rc =
    not (is_empty rc.client_id_file)
    || not (is_empty rc.client_secret_file)
    || not (is_empty rc.ts_api_client_id)
    || not (is_empty rc.ts_api_client_secret)

unfoldable pub oauth_of : RuntimeConfig → OAuthConfig
oauth_of rc = record {
  client_id = rc.ts_api_client_id;
  client_secret = rc.ts_api_client_secret;
  client_id_file = rc.client_id_file;
  client_secret_file = rc.client_secret_file;
  base_url = rc.ts_oauth_url;
  tags = if is_empty rc.ts_oauth_tags then [] else split b',' rc.ts_oauth_tags;
  ephemeral = rc.ts_oauth_ephemeral;
  preauthorized = rc.ts_oauth_preauthorized;
}

unfoldable pub to_tailscale_config : RuntimeConfig → TailscaleConfig
unfolding oauth_of
to_tailscale_config rc = record {
  auth_key = rc.ts_auth_key;
  hostname = rc.ts_hostname;
  state_dir = rc.ts_state_dir;
  state_secret = rc.ts_state;
  advertise_as_exit_node = rc.ts_exit_node;
  auto_split_dns = rc.ts_auto_split_dns;
  oauth = if has_oauth rc then some (oauth_of rc) else none;
}
