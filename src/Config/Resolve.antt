-- ===== src/Config/Resolve.antt =====
-- The manager of internal/config/config.go: lookup, Set, Snapshot and the typed readers.
use serpent_seek.Prelude.{
  ℤ, pos, String, Bool, true, false, not, ◌&&◌, Option, none, some, List, [], ◌∷◌, Dict, insert,
  lookup, delete, or_else, ◌==◌, if◌then◌else◌, trim_space, to_lower, split, join, atoi, itoa, map,
}
use serpent_seek.Config.Keys.{
  key_ap_retry_codes, key_audit_retention, key_auth_enabled, key_chain_timeout, key_debug,
  key_developer_mode, key_history_retention, key_logs_retention, key_max_attempts,
  key_max_concurrency, key_provider_cooldown, key_provider_failures, key_retry_http_codes,
  key_search_daily_quota, key_search_rate_limit, key_update_check, key_update_check_interval,
  key_update_check_url, key_usage_retention, key_webhook_url,
}
use serpent_seek.Config.Bindings.{SettingDef, env_bindings}
use serpent_seek.Config.Load.{Config, csv_parts, ints_of, is_yes}

-- strconv.FormatBool
unfoldable pub format_bool : Bool → String
format_bool true = "true"
format_bool false = "false"

-- joinIntCSV
unfoldable pub join_int_csv : List ℤ → String
join_int_csv v = join (map itoa v) ","

-- IsEnv
unfoldable pub is_env : Config → String → Bool
is_env c key = or_else (lookup key c.env_set) false

-- the loop of DefaultFor over the bindings
unfoldable pub find_default : String → List SettingDef → String
find_default key [] = ""
find_default key (b ∷ bindings) =
    if b.key == key then b.default_value else find_default key bindings

-- DefaultFor
unfoldable pub default_for : String → String
default_for key = find_default key env_bindings

-- the cases of defaultResolved's switch
unfoldable pub switch_values : Config → Dict String
switch_values c =
    (key_auth_enabled, format_bool c.default_auth_enabled)
    ∷ (key_history_retention, itoa c.default_history_retention)
    ∷ (key_logs_retention, itoa c.default_logs_retention)
    ∷ (key_usage_retention, itoa c.default_usage_retention)
    ∷ (key_audit_retention, itoa c.default_audit_retention)
    ∷ (key_max_concurrency, itoa c.max_concurrency)
    ∷ (key_max_attempts, itoa c.max_attempts)
    ∷ (key_retry_http_codes, join_int_csv c.default_retry_http_codes)
    ∷ (key_ap_retry_codes, join c.default_ap_retry_codes ",")
    ∷ (key_search_rate_limit, itoa c.default_search_rate_limit)
    ∷ (key_search_daily_quota, itoa c.default_search_daily_quota)
    ∷ (key_chain_timeout, itoa c.default_chain_timeout)
    ∷ (key_provider_failures, itoa c.default_provider_failures)
    ∷ (key_provider_cooldown, itoa c.default_provider_cooldown)
    ∷ (key_debug, format_bool c.default_debug)
    ∷ (key_developer_mode, format_bool c.default_developer_mode)
    ∷ (key_update_check, format_bool c.default_update_check)
    ∷ (key_update_check_url, c.default_update_check_url)
    ∷ (key_update_check_interval, itoa c.default_update_check_interval)
    ∷ (key_webhook_url, c.default_webhook_url)
    ∷ []

-- defaultResolved
unfoldable pub default_resolved : Config → String → String
default_resolved c key = elim (lookup key (switch_values c)) [ some v ↦ v | none ↦ default_for key ]

-- the KV interface; none stands for an error
pub record Kv (S : Type 0) : Type 0 where
  pub get_setting : String → S → Option String
  pub all_settings : S → Option (Dict String)
  pub set_setting : String → String → S → Option S

pub record Manager : Type 0 where
  pub cfg : Config
  pub cache : Dict String
  pub is_loaded : Bool

-- NewManager
unfoldable pub new_manager : Config → Manager
new_manager c = record { cfg = c; cache = []; is_loaded = false }

-- authEnvOverridable
unfoldable pub auth_env_overridable : Config → String → Bool
auth_env_overridable c key = key == key_auth_enabled && not c.default_auth_enabled

-- the condition of lookup and Set
unfoldable pub is_pinned : Config → String → Bool
is_pinned c key = is_env c key && not (auth_env_overridable c key)

-- the results of Set
pub data SetResult (S : Type 0) : Type 0 where
  read_only : SetResult S
  write_failed : SetResult S
  stored : Manager → S → SetResult S

unfoldable pub cached : Manager → String → Option String
cached m key = if m.is_loaded then lookup key m.cache else none

module _ {S : Type 0} (kv : Kv S) where
  -- Refresh: whether it succeeded, and the manager afterwards
  unfoldable pub refresh : Manager → S → Bool × Manager
  refresh m s = elim (kv.all_settings s) [
    | none ↦ (false, m)
    | some all ↦ (true, record m { cache = all; is_loaded = true })
  ]

  -- the end of lookup: the database, then the default
  unfoldable pub stored_value : Config → String → S → String
  stored_value c key s = elim (kv.get_setting key s) [
    | none ↦ default_resolved c key
    | some v ↦ if v == "" then default_resolved c key else v
  ]

  -- lookup, which is also GetString
  unfoldable pub effective : Manager → String → S → String
  effective m key s =
      if is_pinned m.cfg key
      then default_resolved m.cfg key
      else elim (cached m key) [ some v ↦ v | none ↦ stored_value m.cfg key s ]

  -- GetInt
  unfoldable pub get_int : Manager → String → S → ℤ
  get_int m key s = elim (atoi (trim_space (effective m key s))) [
    | some n ↦ n
    | none ↦ or_else (atoi (default_resolved m.cfg key)) (pos 0)
  ]

  -- GetBool
  unfoldable pub get_bool : Manager → String → S → Bool
  get_bool m key s = is_yes (to_lower (trim_space (effective m key s)))

  -- GetCSV
  unfoldable pub get_csv : Manager → String → S → List String
  get_csv m key s = csv_parts (split 44 (effective m key s))

  -- GetIntCSV
  unfoldable pub get_int_csv : Manager → String → S → List ℤ
  get_int_csv m key s = ints_of (get_csv m key s)

  -- Set
  unfoldable pub set_value : String → String → Manager → S → SetResult S
  set_value key value m s =
      if is_pinned m.cfg key then read_only else elim (kv.set_setting key value s) [
        | none ↦ write_failed
        | some s' ↦ stored (record m { cache = insert key value m.cache; is_loaded = true }) s'
      ]

  -- the values of Snapshot
  unfoldable pub snapshot_values : List SettingDef → Manager → S → Dict String
  snapshot_values [] m s = []
  snapshot_values (b ∷ bindings) m s =
      insert b.key (effective m b.key s) (snapshot_values bindings m s)

-- the marks of Snapshot
unfoldable pub snapshot_env : Manager → Dict Bool
snapshot_env m =
    if auth_env_overridable m.cfg key_auth_enabled
    then delete key_auth_enabled m.cfg.env_set
    else m.cfg.env_set
