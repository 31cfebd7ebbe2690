-- ===== src/Config/Keys.antt =====
-- The keys of settings in internal/config/config.go, their descriptors and the environment variables that
-- give their values.
use serpent_seek.Prelude.{String}

abbrev pub key_auth_enabled : String
key_auth_enabled = "auth_enabled"

abbrev pub key_hide_auth_off_notice : String
key_hide_auth_off_notice = "hide_auth_off_notice"

abbrev pub key_history_retention : String
key_history_retention = "history_retention_days"

abbrev pub key_logs_retention : String
key_logs_retention = "logs_retention_days"

abbrev pub key_usage_retention : String
key_usage_retention = "usage_retention_days"

abbrev pub key_audit_retention : String
key_audit_retention = "audit_retention_days"

abbrev pub key_max_concurrency : String
key_max_concurrency = "max_concurrency"

abbrev pub key_max_attempts : String
key_max_attempts = "max_attempts"

abbrev pub key_user_agent : String
key_user_agent = "user_agent"

abbrev pub key_retry_http_codes : String
key_retry_http_codes = "retry_http_codes"

abbrev pub key_ap_retry_codes : String
key_ap_retry_codes = "ap_retry_codes"

abbrev pub key_searxng_url : String
key_searxng_url = "searxng_url"

abbrev pub key_searxng_api_key : String
key_searxng_api_key = "searxng_api_key"

abbrev pub key_searxng_language : String
key_searxng_language = "searxng_language"

abbrev pub key_yandex_api_key : String
key_yandex_api_key = "yandex_api_key"

abbrev pub key_yandex_folder_id : String
key_yandex_folder_id = "yandex_folder_id"

abbrev pub key_google_api_key : String
key_google_api_key = "google_api_key"

abbrev pub key_google_model : String
key_google_model = "google_model"

abbrev pub key_google_cx : String
key_google_cx = "google_cx"

abbrev pub key_google_driver : String
key_google_driver = "google_driver"

abbrev pub key_public_origin : String
key_public_origin = "public_origin"

abbrev pub key_rp_id : String
key_rp_id = "rp_id"

abbrev pub key_rp_name : String
key_rp_name = "rp_name"

abbrev pub key_log_level : String
key_log_level = "log_level"

abbrev pub key_storage_driver : String
key_storage_driver = "storage_driver"

abbrev pub key_database_url : String
key_database_url = "database_url"

abbrev pub key_treat_empty_as_fail : String
key_treat_empty_as_fail = "treat_empty_as_fail"

abbrev pub key_ignore_request_count : String
key_ignore_request_count = "ignore_request_count"

abbrev pub key_allow_sparse_sources : String
key_allow_sparse_sources = "allow_sparse_sources"

abbrev pub key_search_rate_limit : String
key_search_rate_limit = "search_rate_limit_per_minute"

abbrev pub key_search_daily_quota : String
key_search_daily_quota = "search_daily_quota"

abbrev pub key_chain_timeout : String
key_chain_timeout = "chain_timeout_seconds"

abbrev pub key_provider_failures : String
key_provider_failures = "provider_failure_threshold"

abbrev pub key_provider_cooldown : String
key_provider_cooldown = "provider_cooldown_seconds"

abbrev pub key_debug : String
key_debug = "debug"

abbrev pub key_developer_mode : String
key_developer_mode = "developer_mode"

abbrev pub key_update_check : String
key_update_check = "update_check_enabled"

abbrev pub key_update_check_url : String
key_update_check_url = "update_check_url"

abbrev pub key_update_check_interval : String
key_update_check_interval = "update_check_interval_hours"

abbrev pub key_webhook_url : String
key_webhook_url = "webhook_url"

abbrev pub key_setup_token : String
key_setup_token = "setup_token"

-- DefaultUserAgent
abbrev pub default_user_agent : String
default_user_agent =
    "Mozilla/5.0 (X11; Linux x86_64) AppleWebKit/537.36 (KHTML, like Gecko) Chrome/126.0 Safari/537.36"

-- DefaultUpdateCheckURL
abbrev pub default_release_url : String
default_release_url = "https://api.github.com/repos/liberide/serpent-seek/releases/latest"
