-- ===== src/Config/Tests.antt =====
-- Two variables of the environment: one that its setting follows, and one that it does not.
use serpent_seek.Prelude.{
  pos, String, ◌≡◌, refl, ap, sym, ◌∙◌, ◌⊎◌, inl, inr, true, false, Option, none, some, [], ◌∷◌,
  Dict, lookup, insert, In, ◌==◌, if◌then◌else◌, arith, trim_space, to_lower, atoi, lookup-insert,
  or_else,
}
use serpent_seek.Config.Keys.{
  key_auth_enabled, key_treat_empty_as_fail, key_max_attempts, key_debug,
}
use serpent_seek.Config.Bindings.{SettingDef, setting, env_bindings}
use serpent_seek.Config.Load.{
  Config, loaded, load, checked, clamped, read_env, env_str, env_int, env_marks,
}
use serpent_seek.Config.Resolve.{
  Kv, Manager, stored, set_value, effective, default_for, find_default, switch_values, is_pinned,
  is_env, auth_env_overridable, get_bool, get_int,
}
use serpent_seek.Config.Pinned.{IsKept}
use serpent_seek.Config.Environment.{auth_reachable, pinned_ignores_environment, get_int_pinned}

-- TREAT_EMPTY_AS_FAIL=false and MAX_ATTEMPTS=3
abbrev variables : String → Option String
variables name =
    if name == "TREAT_EMPTY_AS_FAIL"
    then some "false"
    else if name == "MAX_ATTEMPTS"
    then some "3"
    else none

abbrev join_paths : String → String → String
join_paths dir file = file

abbrev no_path : String → Option String
no_path path = none

abbrev base : Config
base = clamped (read_env variables join_paths no_path)

base_loaded : load variables join_paths no_path ≡ loaded base
unfolding load checked read_env env_str to_lower trim_space
base_loaded = refl

-- a database that holds its settings in a table
abbrev table : Kv (Dict String)
table = record {
  get_setting = λ key s. lookup key s;
  all_settings = λ s. some s;
  set_setting = λ key value s. some (insert key value s);
}

table-IsKept : IsKept table
table-IsKept = record {
  others = λ key other value s s' taken apart.
      let same : insert key value s ≡ s' = ap (λ o. or_else o s) taken in
      ap (λ x. lookup other x) (sym same) ∙ lookup-insert key other value s ∙ (simp apart);
}

abbrev manager : Manager
manager = record { cfg = base; cache = []; is_loaded = false }

abbrev debug_on : Manager
debug_on = record { cfg = base; cache = (key_debug, "true") ∷ []; is_loaded = true }

auth_reachable_example :
    (get_bool table manager key_auth_enabled [] ≡ true)
    ⊎ ((m' : Manager) × (set_value table key_auth_enabled "true" manager []
          ≡ stored m' ((key_auth_enabled, "true") ∷ []))
        × (get_bool table m' key_auth_enabled ((key_auth_enabled, "true") ∷ []) ≡ true))
unfolding insert
auth_reachable_example =
    auth_reachable table manager [] ((key_auth_enabled, "true") ∷ []) table-IsKept (λ e. refl) refl

attempts_pinned : is_pinned base key_max_attempts ≡ true
unfolding is_pinned is_env env_marks insert lookup clamped read_env auth_env_overridable
attempts_pinned = refl

abbrev empty_as_fail : SettingDef
empty_as_fail = setting key_treat_empty_as_fail "TREAT_EMPTY_AS_FAIL" "bool" "true" "network"

empty_as_fail_listed : In empty_as_fail env_bindings
empty_as_fail_listed = inr (
    inr (
      inr (
        inr (
          inr (inr (inr (inr (inr (inr (inr (inr (inr (inr (inr (inr (inr (inl refl)))))))))))))))))

-- the environment says false, and the setting stays "true"
pinned_ignores_environment_example :
    effective table manager key_treat_empty_as_fail [] ≡ default_for key_treat_empty_as_fail
unfolding switch_values lookup
pinned_ignores_environment_example =
    pinned_ignores_environment table variables join_paths no_path empty_as_fail "false" manager []
      base_loaded empty_as_fail_listed refl refl

stays_true : default_for key_treat_empty_as_fail ≡ "true"
unfolding default_for find_default
stays_true = refl

attempts_three : base.max_attempts ≡ pos 3
unfolding clamped read_env env_int atoi trim_space
attempts_three = refl

get_int_pinned_example : get_int table manager key_max_attempts [] ≡ base.max_attempts
unfolding clamped read_env env_int atoi trim_space
get_int_pinned_example =
    get_int_pinned table (key_max_attempts, λ c. c.max_attempts) manager []
      (inr (inr (inr (inr (inr (inl refl)))))) attempts_pinned (omega arith)
