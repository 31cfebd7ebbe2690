-- ===== src/Config/Pinned.antt =====
-- Settings that the environment pins, of internal/config/config.go, and what Set can change.
use mathlib.Core.Path.{subst}
use serpent_seek.Prelude.{
  is_negative, is_positive, String, ◌≡◌, refl, ap, ◌∙◌, ◌⊎◌, inl, inr, Bool, true, false, not, ◌&&◌,
  Option, none, some, [], Dict, lookup, insert, ◌==◌, if◌then◌else◌, arith, lookup-insert,
  lookup-insert_self, eq_iff, Bool-cases, Option-cases,
}
use serpent_seek.Config.Load.{Config, loaded, load, checked, clamped, read_env}
use serpent_seek.Config.Resolve.{
  Kv, Manager, stored, is_pinned, cached, default_resolved, effective, stored_value, set_value,
}

-- what a loaded configuration satisfies
pub record IsChecked (c : Config) : Type 0 where
  pub driver : (c.storage_driver ≡ "sqlite") ⊎ (c.storage_driver ≡ "postgres")
  pub url : (c.storage_driver ≡ "postgres") → (c.database_url == "") ≡ false
  pub concurrency : is_negative c.max_concurrency ≡ false
  pub attempts : is_positive c.max_attempts ≡ true

clamp_lem :
    (c : Config)
    → (is_negative (clamped c).max_concurrency ≡ false)
      × (is_positive (clamped c).max_attempts ≡ true)
unfolding clamped
clamp_lem c = ground arith

clamped-IsChecked :
    (c : Config)
    → (not (c.storage_driver == "sqlite") && not (c.storage_driver == "postgres")) ≡ false
    → (c.storage_driver == "postgres" && c.database_url == "") ≡ false
    → IsChecked (clamped c)
unfolding clamped
clamped-IsChecked c known set = record {
  driver =
      ground (arith, known, eq_iff c.storage_driver "sqlite", eq_iff c.storage_driver "postgres");
  url = λ e. ground (arith, set, e, eq_iff c.storage_driver "postgres");
  concurrency = (clamp_lem c).0;
  attempts = (clamp_lem c).1;
}

-- A configuration that Load returns has a known storage driver, a database URL if that is postgres, at
-- least one attempt and no negative concurrency.
load-IsChecked :
    (getenv : String → Option String) (join_path : String → String → String)
    (abs : String → Option String) (c : Config)
    → load getenv join_path abs ≡ loaded c
    → IsChecked c
unfolding load checked
load-IsChecked getenv join_path abs c h =
    let raw = read_env getenv join_path abs in
    let unknown = not (raw.storage_driver == "sqlite") && not (raw.storage_driver == "postgres") in
    let unset = raw.storage_driver == "postgres" && raw.database_url == "" in
    elim (Bool-cases unknown) [
      | inl bad ↦ absurd (ground (arith, h, bad))
      | inr known ↦ elim (Bool-cases unset) [
        | inl bad ↦ absurd (ground (arith, h, known, bad))
        | inr set ↦
            let same : clamped raw ≡ c = ground (arith, h, known, set) in
            subst IsChecked same (clamped-IsChecked raw known set)
      ]
    ]

-- nothing is cached before the settings are loaded
abbrev pub IsConsistent : Manager → Type 0
IsConsistent m = m.is_loaded ≡ false → m.cache ≡ []

pub record IsKept {S : Type 0} (kv : Kv S) : Type 0 where
  pub others :
      (key other value : String) (s s' : S)
      → kv.set_setting key value s ≡ some s'
      → (key == other) ≡ false
      → kv.get_setting other s' ≡ kv.get_setting other s

unless_loaded :
    (b : Bool) (cache : Dict String) (key : String)
    → (b ≡ false → cache ≡ [])
    → lookup key cache ≡ (if b then lookup key cache else none)
unfolding lookup
unless_loaded true cache key h = refl
unless_loaded false cache key h = ap (λ c. lookup key c) (h refl)

abbrev with_value : String → String → Manager → Manager
with_value key value m = record m { cache = insert key value m.cache; is_loaded = true }

cached-with_value :
    (key value other : String) (m : Manager)
    → IsConsistent m
    → (key == other) ≡ false
    → cached (with_value key value m) other ≡ cached m other
unfolding cached
cached-with_value key value other m consistent apart =
    lookup-insert key other value m.cache
    ∙ rw apart (unless_loaded m.is_loaded m.cache other consistent)

effective_other :
    {S : Type 0} (kv : Kv S) (key value other : String) (m : Manager) (s s' : S)
    → IsConsistent m
    → (key == other) ≡ false
    → kv.get_setting other s' ≡ kv.get_setting other s
    → effective kv (with_value key value m) other s' ≡ effective kv m other s
unfolding effective stored_value
effective_other kv key value other m s s' consistent apart same =
    let later : stored_value kv m.cfg other s' ≡ stored_value kv m.cfg other s =
      rw (same, stored_value) refl in
    let fixed = default_resolved m.cfg other in
    ap
      (λ (c : Option String).
        if is_pinned m.cfg other
        then fixed
        else elim c [ some v ↦ v | none ↦ stored_value kv m.cfg other s' ])
      (cached-with_value key value other m consistent apart)
    ∙ ap
        (λ (d : String).
          if is_pinned m.cfg other then fixed else elim (cached m other) [ some v ↦ v | none ↦ d ])
        later

effective_self :
    {S : Type 0} (kv : Kv S) (key value : String) (m : Manager) (s : S)
    → is_pinned m.cfg key ≡ false
    → effective kv (with_value key value m) key s ≡ value
unfolding effective cached
effective_self kv key value m s free = rw (free, lookup-insert_self key value m.cache) refl

-- After Set has stored a value, it is the effective value of its key, and every other key has the value it
-- had before.
pub set_value-effective :
    {S : Type 0} (kv : Kv S) (key value : String) (m m' : Manager) (s s' : S)
    → IsKept kv
    → IsConsistent m
    → set_value kv key value m s ≡ stored m' s'
    → (effective kv m' key s' ≡ value)
      × ((other : String)
          → (key == other) ≡ false
          → effective kv m' other s' ≡ effective kv m other s)
unfolding set_value
set_value-effective kv key value m m' s s' kept consistent done =
    elim (Option-cases (kv.set_setting key value s)) [
      | inl fails ↦ absurd (ground (arith, done, fails))
      | inr (written, e) ↦
          let parts : (is_pinned m.cfg key ≡ false)
              × (m' ≡ record m { cache = insert key value m.cache; is_loaded = true })
              × (written ≡ s') =
            ground (arith, done, e) in
          (
            ap (λ x. effective kv x key s') parts.1 ∙ effective_self kv key value m s' parts.0,
            λ other apart.
                ap (λ x. effective kv x other s') parts.1
                ∙ effective_other kv key value other m s s' consistent apart
                    (kept.others key other value s s' (e ∙ ap some parts.2) apart),
          )
    ]

pub effective_pinned :
    {S : Type 0} (kv : Kv S) (key : String) (m : Manager) (s : S)
    → is_pinned m.cfg key ≡ true
    → effective kv m key s ≡ default_resolved m.cfg key
unfolding effective
effective_pinned kv key m s h = rw h refl
