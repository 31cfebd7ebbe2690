-- ===== src/Config/Load.antt =====
-- Config and Load of internal/config/config.go. os.LookupEnv, filepath.Join and filepath.Abs are
-- parameters.
use serpent_seek.Prelude.{
  ℤ, pos, is_negative, is_positive, String, Bool, true, false, not, ◌&&◌, ◌||◌, Option, none, some,
  List, [], ◌∷◌, Dict, insert, or_else, ◌==◌, if◌then◌else◌, trim_space, to_lower, to_upper, split,
  atoi,
}
use serpent_seek.Config.Keys.{default_user_agent, default_release_url}
use serpent_seek.Config.Bindings.{SettingDef, env_bindings}

-- Config
pub record Config : Type 0 where
  pub port : ℤ
  pub host : String
  pub public_origin : String
  pub rp_id : String
  pub rp_name : String
  pub trusted_proxies : List String
  pub block_private_networks : Bool
  pub data_dir : String
  pub sqlite_path : String
  pub storage_driver : String
  pub database_url : String
  pub encryption_key : String
  pub user_agent : String
  pub max_concurrency : ℤ
  pub max_attempts : ℤ
  pub log_level : String
  pub log_format : String
  pub cleanup_cron : String
  pub vacuum_cron : String
  pub setup_token : String
  pub default_auth_enabled : Bool
  pub default_history_retention : ℤ
  pub default_logs_retention : ℤ
  pub default_usage_retention : ℤ
  pub default_audit_retention : ℤ
  pub default_retry_http_codes : List ℤ
  pub default_ap_retry_codes : List String
  pub default_api_serpent_api_key : String
  pub default_serp_base_api_key : String
  pub default_searxng_url : String
  pub default_searxng_api_key : String
  pub default_searxng_language : String
  pub default_yandex_api_key : String
  pub default_yandex_folder_id : String
  pub default_ncbi_api_key : String
  pub default_google_api_key : String
  pub default_google_model : String
  pub default_google_cx : String
  pub default_google_driver : String
  pub default_history_cleanup_runs : Bool
  pub default_provider_timeout_ms : ℤ
  pub default_treat_empty_as_failure : Bool
  pub default_update_check : Bool
  pub default_update_check_url : String
  pub default_update_check_interval : ℤ
  pub default_webhook_url : String
  pub default_search_rate_limit : ℤ
  pub default_search_daily_quota : ℤ
  pub default_chain_timeout : ℤ
  pub default_provider_failures : ℤ
  pub default_provider_cooldown : ℤ
  pub default_debug : Bool
  pub default_developer_mode : Bool
  pub env_set : Dict Bool

-- envStr
unfoldable pub env_str : (String → Option String) → String → String → String
env_str getenv key default = elim (getenv key) [ none ↦ default | some v ↦ trim_space v ]

-- envInt
unfoldable pub env_int : (String → Option String) → String → ℤ → ℤ
env_int getenv key default = elim (getenv key) [
  | none ↦ default
  | some v ↦ or_else (atoi (trim_space v)) default
]

unfoldable pub is_yes : String → Bool
is_yes v = v == "1" || v == "true" || v == "yes" || v == "on"

unfoldable pub is_no : String → Bool
is_no v = v == "0" || v == "false" || v == "no" || v == "off" || v == ""

-- envBool
unfoldable pub env_bool : (String → Option String) → String → Bool → Bool
env_bool getenv key default = elim (getenv key) [
  | none ↦ default
  | some v ↦
      let word = to_lower (trim_space v) in
      if is_yes word then true else if is_no word then false else default
]

-- the trimmed parts that are not empty
unfoldable pub csv_parts : List String → List String
csv_parts [] = []
csv_parts (p ∷ ps) =
    let rest = csv_parts ps in let part = trim_space p in if part == "" then rest else part ∷ rest

-- the numbers among the parts
unfoldable pub ints_of : List String → List ℤ
ints_of [] = []
ints_of (p ∷ ps) = let rest = ints_of ps in elim (atoi p) [ none ↦ rest | some n ↦ n ∷ rest ]

-- envIntList
unfoldable pub env_int_list : (String → Option String) → String → List ℤ → List ℤ
env_int_list getenv key default = elim (getenv key) [
  | none ↦ default
  | some v ↦ elim (ints_of (csv_parts (split 44 v))) [ [] ↦ default | n ∷ ns ↦ n ∷ ns ]
]

unfoldable pub uppers : List String → List String
uppers [] = []
uppers (p ∷ ps) = to_upper p ∷ uppers ps

-- envStrList
unfoldable pub env_str_list : (String → Option String) → String → List String
env_str_list getenv key = elim (getenv key) [ none ↦ [] | some v ↦ uppers (csv_parts (split 44 v)) ]

-- envList
unfoldable pub env_list : (String → Option String) → String → List String
env_list getenv key = elim (getenv key) [ none ↦ [] | some v ↦ csv_parts (split 44 v) ]

-- the loop that records which settings the environment gives
unfoldable pub env_marks : (String → Option String) → List SettingDef → Dict Bool
env_marks getenv [] = []
env_marks getenv (b ∷ bindings) =
    let rest = env_marks getenv bindings in
    elim (getenv b.env) [ none ↦ rest | some v ↦ insert b.key true rest ]

-- the path itself, where it cannot be made absolute
unfoldable pub absolute : (String → Option String) → String → String
absolute abs path = or_else (abs path) path

unfoldable pub sqlite_path_of : (String → String → String) → (String → Option String) → String
sqlite_path_of join_path getenv =
    let path = env_str getenv "SQLITE_PATH" "" in
    if path == "" then join_path (env_str getenv "DATA_DIR" "data") "serpentseek.db" else path

-- the configuration before the checks and the clamps
unfoldable pub read_env :
    (String → Option String) → (String → String → String) → (String → Option String) → Config
read_env getenv join_path abs = record {
  port = env_int getenv "PORT" (pos 8080);
  host = env_str getenv "HOST" "0.0.0.0";
  public_origin = env_str getenv "PUBLIC_ORIGIN" "";
  rp_id = env_str getenv "RP_ID" "";
  rp_name = env_str getenv "RP_NAME" "SerpentSeek";
  trusted_proxies = env_list getenv "TRUSTED_PROXIES";
  block_private_networks = env_bool getenv "BLOCK_PRIVATE_NETWORKS" false;
  data_dir = absolute abs (env_str getenv "DATA_DIR" "data");
  sqlite_path = absolute abs (sqlite_path_of join_path getenv);
  storage_driver = to_lower (env_str getenv "STORAGE_DRIVER" "sqlite");
  database_url = env_str getenv "DATABASE_URL" "";
  encryption_key = env_str getenv "ENCRYPTION_KEY" "";
  user_agent = env_str getenv "USER_AGENT" default_user_agent;
  max_concurrency = env_int getenv "MAX_CONCURRENCY" (pos 32);
  max_attempts = env_int getenv "MAX_ATTEMPTS" (pos 10);
  log_level = to_lower (env_str getenv "LOG_LEVEL" "info");
  log_format = to_lower (env_str getenv "LOG_FORMAT" "text");
  cleanup_cron = env_str getenv "HISTORY_CLEANUP_CRON" "0 4 * * *";
  vacuum_cron = env_str getenv "VACUUM_CRON" "0 3 * * 0";
  setup_token = env_str getenv "SETUP_TOKEN" "";
  default_auth_enabled = env_bool getenv "AUTH_ENABLED" true;
  default_history_retention = env_int getenv "HISTORY_RETENTION_DAYS" (pos 30);
  default_logs_retention = env_int getenv "LOGS_RETENTION_DAYS" (pos 14);
  default_usage_retention = env_int getenv "USAGE_RETENTION_DAYS" (pos 90);
  default_audit_retention = env_int getenv "AUDIT_RETENTION_DAYS" (pos 180);
  default_retry_http_codes =
      env_int_list getenv "RETRY_HTTP_CODES" (pos 429 ∷ pos 500 ∷ pos 502 ∷ pos 503 ∷ pos 504 ∷ []);
  default_ap_retry_codes = env_str_list getenv "AP_RETRY_CODES";
  default_api_serpent_api_key =
      env_str getenv "APISERPENT_API_KEY" (env_str getenv "SERPENT_API_KEY" "");
  default_serp_base_api_key = env_str getenv "SERPBASE_API_KEY" "";
  default_searxng_url = env_str getenv "SEARXNG_URL" "";
  default_searxng_api_key = env_str getenv "SEARXNG_API_KEY" "";
  default_searxng_language = env_str getenv "SEARXNG_LANGUAGE" "";
  default_yandex_api_key = env_str getenv "YANDEX_API_KEY" "";
  default_yandex_folder_id = env_str getenv "YANDEX_FOLDER_ID" "";
  default_ncbi_api_key = env_str getenv "NCBI_API_KEY" "";
  default_google_api_key = env_str getenv "GOOGLE_API_KEY" "";
  default_google_model = env_str getenv "GOOGLE_MODEL" "gemini-3.8-flash";
  default_google_cx = env_str getenv "GOOGLE_CX" "";
  default_google_driver = to_lower (env_str getenv "GOOGLE_DRIVER" "vertex");
  default_history_cleanup_runs = false;
  default_provider_timeout_ms = pos 0;
  default_treat_empty_as_failure = env_bool getenv "TREAT_EMPTY_AS_FAIL" true;
  default_update_check = env_bool getenv "UPDATE_CHECK_ENABLED" true;
  default_update_check_url = env_str getenv "UPDATE_CHECK_URL" default_release_url;
  default_update_check_interval = env_int getenv "UPDATE_CHECK_INTERVAL_HOURS" (pos 24);
  default_webhook_url = env_str getenv "WEBHOOK_URL" "";
  default_search_rate_limit = env_int getenv "SEARCH_RATE_LIMIT_PER_MINUTE" (pos 0);
  default_search_daily_quota = env_int getenv "SEARCH_DAILY_QUOTA" (pos 0);
  default_chain_timeout = env_int getenv "CHAIN_TIMEOUT" (pos 0);
  default_provider_failures = env_int getenv "PROVIDER_FAILURE_THRESHOLD" (pos 0);
  default_provider_cooldown = env_int getenv "PROVIDER_COOLDOWN_SECONDS" (pos 60);
  default_debug = env_bool getenv "DEBUG" false;
  default_developer_mode = env_bool getenv "DEVELOPER_MODE" false;
  env_set = env_marks getenv env_bindings;
}

pub data LoadError : Type 0 where
  invalid_driver : String → LoadError
  missing_database_url : LoadError

pub data Loaded : Type 0 where
  loaded : Config → Loaded
  failed : LoadError → Loaded

-- the bounds of MaxConcurrency and MaxAttempts
unfoldable pub clamped : Config → Config
clamped c = record c {
  max_concurrency = if is_negative c.max_concurrency then pos 0 else c.max_concurrency;
  max_attempts = if is_positive c.max_attempts then c.max_attempts else pos 1;
}

-- the checks of Load
unfoldable pub checked : Config → Loaded
checked c =
    if not (c.storage_driver == "sqlite") && not (c.storage_driver == "postgres")
    then failed (invalid_driver c.storage_driver)
    else if c.storage_driver == "postgres" && c.database_url == ""
    then failed missing_database_url
    else loaded (clamped c)

-- Load
unfoldable pub load :
    (String → Option String) → (String → String → String) → (String → Option String) → Loaded
load getenv join_path abs = checked (read_env getenv join_path abs)
