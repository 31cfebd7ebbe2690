-- ===== src/Config/Bindings.antt =====
-- The table envBindings of internal/config/config.go: the setting of each key, its variable and its default.
use serpent_seek.Prelude.{String, Bool, true, false, List, [], ◌∷◌}
use serpent_seek.Config.Keys.{
  key_auth_enabled, key_hide_auth_off_notice, key_history_retention, key_logs_retention,
  key_usage_retention, key_audit_retention, key_max_concurrency, key_max_attempts, key_user_agent,
  key_retry_http_codes, key_ap_retry_codes, key_public_origin, key_rp_id, key_rp_name,
  key_log_level, key_storage_driver, key_database_url, key_treat_empty_as_fail,
  key_ignore_request_count, key_allow_sparse_sources, key_search_rate_limit, key_search_daily_quota,
  key_chain_timeout, key_provider_failures, key_provider_cooldown, key_debug, key_developer_mode,
  key_update_check, key_update_check_url, key_update_check_interval, key_webhook_url,
  default_user_agent, default_release_url,
}

-- SettingDef; nothing sets the field Required
pub record SettingDef : Type 0 where
  pub key : String
  pub env : String
  pub value_type : String
  pub default_value : String
  pub env_only : Bool
  pub secret : Bool
  pub group : String
  pub required : Bool
  pub hidden : Bool

-- a setting that is neither secret nor hidden, and that a user may edit
abbrev pub setting : String → String → String → String → String → SettingDef
setting key env value_type default_value group = record {
  key = key;
  env = env;
  value_type = value_type;
  default_value = default_value;
  env_only = false;
  secret = false;
  group = group;
  required = false;
  hidden = false;
}

-- envBindings
abbrev pub env_bindings : List SettingDef
env_bindings =
    setting key_auth_enabled "AUTH_ENABLED" "bool" "true" "auth"
    ∷ setting key_hide_auth_off_notice "HIDE_AUTH_OFF_NOTICE" "bool" "false" "auth"
    ∷ setting key_history_retention "HISTORY_RETENTION_DAYS" "int" "30" "retention"
    ∷ setting key_logs_retention "LOGS_RETENTION_DAYS" "int" "14" "retention"
    ∷ setting key_usage_retention "USAGE_RETENTION_DAYS" "int" "90" "retention"
    ∷ setting key_audit_retention "AUDIT_RETENTION_DAYS" "int" "180" "retention"
    ∷ setting key_max_concurrency "MAX_CONCURRENCY" "int" "32" "network"
    ∷ setting key_max_attempts "MAX_ATTEMPTS" "int" "10" "network"
    ∷ setting key_user_agent "USER_AGENT" "string" default_user_agent "network"
    ∷ setting key_retry_http_codes "RETRY_HTTP_CODES" "csv" "429,500,502,503,504" "providers"
    ∷ setting key_ap_retry_codes "AP_RETRY_CODES" "csv" "" "providers"
    ∷ setting key_public_origin "PUBLIC_ORIGIN" "string" "" "auth"
    ∷ setting key_rp_id "RP_ID" "string" "" "auth"
    ∷ setting key_rp_name "RP_NAME" "string" "SerpentSeek" "auth"
    ∷ setting key_log_level "LOG_LEVEL" "string" "info" "general"
    ∷ record (setting key_storage_driver "STORAGE_DRIVER" "string" "sqlite" "storage") {
      env_only = true;
    }
    ∷ record (setting key_database_url "DATABASE_URL" "string" "" "storage") {
      env_only = true;
      secret = true;
    }
    ∷ setting key_treat_empty_as_fail "TREAT_EMPTY_AS_FAIL" "bool" "true" "network"
    ∷ setting key_ignore_request_count "IGNORE_REQUEST_COUNT" "bool" "false" "network"
    ∷ setting key_allow_sparse_sources "ALLOW_SPARSE_SOURCES" "bool" "false" "network"
    ∷ setting key_search_rate_limit "SEARCH_RATE_LIMIT_PER_MINUTE" "int" "0" "network"
    ∷ setting key_search_daily_quota "SEARCH_DAILY_QUOTA" "int" "0" "network"
    ∷ setting key_chain_timeout "CHAIN_TIMEOUT" "int" "0" "network"
    ∷ setting key_provider_failures "PROVIDER_FAILURE_THRESHOLD" "int" "0" "network"
    ∷ setting key_provider_cooldown "PROVIDER_COOLDOWN_SECONDS" "int" "60" "network"
    ∷ setting key_debug "DEBUG" "bool" "false" "general"
    ∷ record (setting key_developer_mode "DEVELOPER_MODE" "bool" "false" "auth") { hidden = true }
    ∷ setting key_update_check "UPDATE_CHECK_ENABLED" "bool" "true" "general"
    ∷ record (setting key_update_check_url "UPDATE_CHECK_URL" "string" default_release_url
        "general") { env_only = true }
    ∷ setting key_update_check_interval "UPDATE_CHECK_INTERVAL_HOURS" "int" "24" "general"
    ∷ setting key_webhook_url "WEBHOOK_URL" "string" "" "general"
    ∷ []
