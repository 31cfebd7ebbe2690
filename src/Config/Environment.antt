-- ===== src/Config/Environment.antt =====
-- What a variable of the environment does to its setting, in internal/config/config.go.
use mathlib.Core.Path.{subst}
use serpent_seek.Prelude.{
  ℤ, String, ◌≡◌, refl, ap, sym, ◌∙◌, ◌⊎◌, inl, inr, true, false, Option, none, some, List, [], ◌∷◌,
  lookup, insert, In, All, ◌==◌, arith, trim_space, to_lower, itoa, IsInt, atoi-itoa,
  trim_space-itoa, lookup-insert, lookup-insert_self, eq_of_test, Bool-cases, Option-cases,
}
use serpent_seek.Config.Keys.{
  key_auth_enabled, key_history_retention, key_logs_retention, key_usage_retention,
  key_audit_retention, key_max_concurrency, key_max_attempts, key_search_rate_limit,
  key_search_daily_quota, key_chain_timeout, key_provider_failures, key_provider_cooldown,
  key_update_check_interval,
}
use serpent_seek.Config.Bindings.{SettingDef, env_bindings}
use serpent_seek.Config.Load.{Config, loaded, load, checked, clamped, read_env, env_marks, is_yes}
use serpent_seek.Config.Resolve.{
  Kv, Manager, stored, is_env, is_pinned, auth_env_overridable, default_for, default_resolved,
  switch_values, format_bool, effective, get_int, get_bool, set_value,
}
use serpent_seek.Config.Pinned.{IsConsistent, IsKept, effective_pinned, set_value-effective}

auth_default :
    (c : Config) → c.default_auth_enabled ≡ true → default_resolved c key_auth_enabled ≡ "true"
unfolding default_resolved switch_values format_bool lookup
auth_default c h = ap (λ b. format_bool b) h

-- Where the environment turns authentication on, it is on, whatever is stored.
auth_forced :
    {S : Type 0} (kv : Kv S) (m : Manager) (s : S)
    → is_env m.cfg key_auth_enabled ≡ true
    → m.cfg.default_auth_enabled ≡ true
    → get_bool kv m key_auth_enabled s ≡ true
unfolding get_bool is_pinned auth_env_overridable to_lower trim_space is_yes
auth_forced kv m s env on =
    let pinned : is_pinned m.cfg key_auth_enabled ≡ true = ground (arith, env, on) in
    ap (λ v. is_yes (to_lower (trim_space v)))
      (effective_pinned kv key_auth_enabled m s pinned ∙ auth_default m.cfg on)

set_value_stores :
    {S : Type 0} (kv : Kv S) (key value : String) (m : Manager) (s s' : S)
    → is_pinned m.cfg key ≡ false
    → kv.set_setting key value s ≡ some s'
    → set_value kv key value m s
      ≡ stored (record m { cache = insert key value m.cache; is_loaded = true }) s'
unfolding set_value
set_value_stores kv key value m s s' free accepted = rw (free, accepted) refl

-- Authentication can always be turned on: it is on by the environment, or a Set of "true" that the database
-- accepts turns it on.
pub auth_reachable :
    {S : Type 0} (kv : Kv S) (m : Manager) (s s' : S)
    → IsKept kv
    → IsConsistent m
    → kv.set_setting key_auth_enabled "true" s ≡ some s'
    → (get_bool kv m key_auth_enabled s ≡ true)
      ⊎ ((m' : Manager) × (set_value kv key_auth_enabled "true" m s ≡ stored m' s')
          × (get_bool kv m' key_auth_enabled s' ≡ true))
unfolding get_bool set_value is_pinned auth_env_overridable to_lower trim_space is_yes
auth_reachable kv m s s' kept consistent accepted =
    elim (Bool-cases (is_pinned m.cfg key_auth_enabled)) [
      | inl pinned ↦
          let parts : (is_env m.cfg key_auth_enabled ≡ true) × (m.cfg.default_auth_enabled ≡ true) =
            ground (arith, pinned) in
          inl (auth_forced kv m s parts.0 parts.1)
      | inr free ↦
          let m' = record m { cache = insert key_auth_enabled "true" m.cache; is_loaded = true } in
          let done : set_value kv key_auth_enabled "true" m s ≡ stored m' s' =
            set_value_stores kv key_auth_enabled "true" m s s' free accepted in
          inr (
            m',
            done,
            ap (λ v. is_yes (to_lower (trim_space v)))
                ((set_value-effective kv key_auth_enabled "true" m m' s s' kept consistent done).0),
          )
    ]

marked :
    (getenv : String → Option String) (raw : String) (b : SettingDef) (bindings : List SettingDef)
    → In b bindings
    → getenv b.env ≡ some raw
    → lookup b.key (env_marks getenv bindings) ≡ some true
unfolding env_marks
marked getenv raw b [] m given = absurd m
marked getenv raw b (d ∷ bindings) (inl here) given =
    let given' : getenv d.env ≡ some raw = ap (λ x. getenv x.env) (sym here) ∙ given in
    rw (given', env_marks)
      (ap (λ x. lookup x.key (insert d.key true (env_marks getenv bindings))) here
        ∙ lookup-insert_self d.key true (env_marks getenv bindings))
marked getenv raw b (d ∷ bindings) (inr later) given =
    let rest = marked getenv raw b bindings later given in
    elim (Option-cases (getenv d.env)) [
      | inl e ↦ rw (e, env_marks) rest
      | inr (v, e) ↦
          rw (e, env_marks)
            (lookup-insert d.key b.key true (env_marks getenv bindings) ∙ ground (arith, rest))
    ]

loaded-env_set :
    (getenv : String → Option String) (join_path : String → String → String)
    (abs : String → Option String) (c : Config)
    → load getenv join_path abs ≡ loaded c
    → c.env_set ≡ env_marks getenv env_bindings
unfolding load checked clamped read_env
loaded-env_set getenv join_path abs c h = ground (arith, h)

not_auth :
    (c : Config) (key : String)
    → lookup key (switch_values c) ≡ none
    → (key == key_auth_enabled) ≡ false
unfolding switch_values lookup
not_auth c key h = elim (Bool-cases (key == key_auth_enabled)) [
  | inr other ↦ other
  | inl same ↦
      let found =
        ap (λ k. lookup k (switch_values c)) (sym (eq_of_test key key_auth_enabled same)) ∙ h in
      absurd (ground (arith, found))
]

-- A variable of the environment whose setting has no case in defaultResolved pins the setting to its
-- compiled-in default: the value of the variable has no effect on it.
pub pinned_ignores_environment :
    {S : Type 0} (kv : Kv S) (getenv : String → Option String)
    (join_path : String → String → String) (abs : String → Option String) (b : SettingDef)
    (raw : String) (m : Manager) (s : S)
    → load getenv join_path abs ≡ loaded m.cfg
    → In b env_bindings
    → getenv b.env ≡ some raw
    → lookup b.key (switch_values m.cfg) ≡ none
    → effective kv m b.key s ≡ default_for b.key
unfolding is_pinned auth_env_overridable is_env default_resolved
pinned_ignores_environment kv getenv join_path abs b raw m s done listed given uncased =
    let mark : lookup b.key m.cfg.env_set ≡ some true =
      ap (λ marks. lookup b.key marks) (loaded-env_set getenv join_path abs m.cfg done)
      ∙ marked getenv raw b env_bindings listed given in
    let pinned : is_pinned m.cfg b.key ≡ true =
      ground (arith, mark, not_auth m.cfg b.key uncased) in
    effective_pinned kv b.key m s pinned ∙ rw (uncased, default_resolved) refl

-- the settings whose value is a number of the configuration
abbrev pub IntSetting : Type 0
IntSetting = String × (Config → ℤ)

abbrev pub int_settings : List IntSetting
int_settings =
    (key_history_retention, λ c. c.default_history_retention)
    ∷ (key_logs_retention, λ c. c.default_logs_retention)
    ∷ (key_usage_retention, λ c. c.default_usage_retention)
    ∷ (key_audit_retention, λ c. c.default_audit_retention)
    ∷ (key_max_concurrency, λ c. c.max_concurrency)
    ∷ (key_max_attempts, λ c. c.max_attempts)
    ∷ (key_search_rate_limit, λ c. c.default_search_rate_limit)
    ∷ (key_search_daily_quota, λ c. c.default_search_daily_quota)
    ∷ (key_chain_timeout, λ c. c.default_chain_timeout)
    ∷ (key_provider_failures, λ c. c.default_provider_failures)
    ∷ (key_provider_cooldown, λ c. c.default_provider_cooldown)
    ∷ (key_update_check_interval, λ c. c.default_update_check_interval)
    ∷ []

abbrev IsResolved : IntSetting → Type 0
IsResolved (key, field) = (c : Config) → default_resolved c key ≡ itoa (field c)

All-IsResolved : All IsResolved int_settings
unfolding default_resolved switch_values lookup
All-IsResolved = (
  λ c. refl,
  (
    λ c. refl,
    (
      λ c. refl,
      (
        λ c. refl,
        (
          λ c. refl,
          (
            λ c. refl,
            (λ c. refl, (λ c. refl, (λ c. refl, (λ c. refl, (λ c. refl, (λ c. refl, tt)))))),
          ),
        ),
      ),
    ),
  ),
)

In-All : (x : IntSetting) (xs : List IntSetting) → In x xs → All IsResolved xs → IsResolved x
In-All x [] m h = absurd m
In-All x (y ∷ ys) (inl here) (a, rest) = subst IsResolved (sym here) a
In-All x (y ∷ ys) (inr later) (a, rest) = In-All x ys later rest

-- A pinned number of the configuration is what GetInt returns for its key, if it is a 64-bit one.
pub get_int_pinned :
    {S : Type 0} (kv : Kv S) (setting : IntSetting) (m : Manager) (s : S)
    → In setting int_settings
    → is_pinned m.cfg setting.0 ≡ true
    → IsInt (setting.1 m.cfg)
    → get_int kv m setting.0 s ≡ setting.1 m.cfg
unfolding get_int
get_int_pinned kv (key, field) m s listed pinned fits =
    let value : effective kv m key s ≡ itoa (field m.cfg) =
      effective_pinned kv key m s pinned
      ∙ In-All (key, field) int_settings listed All-IsResolved m.cfg in
    rw (value, trim_space-itoa (field m.cfg), atoi-itoa (field m.cfg) fits, get_int) refl
