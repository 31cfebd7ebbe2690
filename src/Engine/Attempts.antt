-- ===== src/Engine/Attempts.antt =====
-- execNode and resolveNode of internal/engine/engine.go: how often a block calls its provider, and when.
use serpent_seek.Prelude.{
  ℕ, zero, suc, ◌+◌, ◌≤◌, String, ◌≡◌, refl, not, ◌&&◌, inl, inr, Bool, true, false, Option, none,
  some, List, [], ◌∷◌, In, any, ◌==◌, if◌then◌else◌, ◌⊎◌, Option-cases, lookup, arith, Bool-cases,
  ap, eq_iff,
}
use serpent_seek.Models.{ChainNode, Result, Provider}
use serpent_seek.Cooldown.{blocked, Cooldowns}
use serpent_seek.Engine.State.{Context, World, Target, take_step, is_dead, publish, mark_dead}
use serpent_seek.Engine.Words.{attempts_of, is_blank}
use serpent_seek.Engine.Resolve.{
  resolve_node, skip_reason, instance_dead_reason, is_disabled, driver_of, base_url, credential,
  keyed_drivers, provider_requires_key,
}
use serpent_seek.Engine.Attempt.{
  no_result, reply_of, result_of, will_sleep, attempt_world, judge, attempt_loop, exec_node,
}
use serpent_seek.Engine.Budget.{attempt_world-Spends, take_step-cases, Verdict-cases}

module _ (c : Context) (idx : ℕ) (n : ChainNode) (t : Target) where
  -- what an attempt and a loss of the provider do to the number of calls
  loop-calls :
      (left attempt : ℕ) (last : Result) (attempted : Bool) (w : World)
      → (attempt_loop c idx n t left attempt last attempted w).1.calls ≤ w.calls + left
  unfolding attempt_loop publish mark_dead
  loop-calls zero attempt last attempted w = omega arith
  loop-calls (suc left) attempt last attempted w = elim (take_step-cases c w) [
    | inl (spent, same, full) ↦ rw (spent, attempt_loop) (omega (arith, calls_same same))
    | inr (taken, moved, room) ↦
        let w₁ = (take_step c w).1 in
        let w₂ = attempt_world c idx n t attempt w₁ in
        let reply = reply_of c n attempt w₁ in
        let r = result_of c t reply in
        let one : w₂.calls ≡ w.calls + 1 =
          called moved (attempt_world-Spends c idx n t attempt w₁).calls in
        rw (taken, attempt_loop)
          (elim (Verdict-cases (judge c n t r (will_sleep c n attempt r w₁) reply.slept)) [
            | inl (rows, e) ↦ rw (e, attempt_loop) (omega (arith, one))
            | inr (inl e) ↦ rw (e, attempt_loop) (omega (arith, one))
            | inr (inr (inl e)) ↦ rw (e, attempt_loop) (omega (arith, one))
            | inr (inr (inr e)) ↦
                rw (e, attempt_loop) (omega (arith, one, loop-calls left (attempt + 1) r true w₂))
          ])
  ]
    where
      calls_same : (take_step c w).1 ≡ w → (take_step c w).1.calls ≡ w.calls
      calls_same e = ap (λ x. x.calls) e

      called :
          {k : ℕ}
          → (take_step c w).1 ≡ record w { step_no = w.step_no + 1 }
          → k ≡ (take_step c w).1.calls + 1
          → k ≡ w.calls + 1
      called moved e = omega (arith, e, ap (λ x. x.calls) moved)

  -- A block calls its provider at most once for each attempt that it is given: once more than its
  -- retries, and not at all if they are negative.
  exec_node-calls : (w : World) → (exec_node c idx n t w).1.calls ≤ w.calls + attempts_of n
  unfolding exec_node
  exec_node-calls w = loop-calls (attempts_of n) 0 no_result false w

-- the provider is enabled and has what its driver needs
abbrev pub IsConfigured : String → Option Provider → Type 0
IsConfigured driver p =
    ((p ≡ none) ⊎ ((inst : Provider) × (p ≡ some inst) × (inst.enabled ≡ true)))
    × (¬ (driver ≡ "searxng") ⊎ (is_blank (base_url p) ≡ false))
    × (¬ (driver ≡ "vertex_search") ⊎ (is_blank (credential p "service_account_json") ≡ false))
    × (¬ In driver keyed_drivers ⊎ (is_blank (credential p "api_key") ≡ false))

-- the breaker lets a key pass
abbrev pub IsOpen : String → ℕ → Cooldowns → Type 0
IsOpen key now cooldowns =
    (key ≡ "")
    ⊎ (lookup key cooldowns.until ≡ none)
    ⊎ ((t : ℕ) × (lookup key cooldowns.until ≡ some t) × (t ≤ now))

enabled_lem :
    (p : Option Provider)
    → is_disabled p ≡ false
    → (p ≡ none) ⊎ ((inst : Provider) × (p ≡ some inst) × (inst.enabled ≡ true))
unfolding is_disabled
enabled_lem none on = inl (λ i. none)
enabled_lem (some p) on = inr (p, (λ i. some p), ground (arith, on))

any_In : (x : String) (xs : List String) → any (λ y. y == x) xs ≡ false → ¬ In x xs
any_In x [] h here = absurd here
any_In x (y ∷ ys) h (inl e) = ground (arith, h, eq_iff y x, e)
any_In x (y ∷ ys) h (inr later) = any_In x ys (ground (arith, h)) later

open_lem :
    (key : String) (now : ℕ) (cooldowns : Cooldowns)
    → (blocked key now cooldowns).0 ≡ false
    → IsOpen key now cooldowns
unfolding blocked
open_lem key now cooldowns h = elim (Bool-cases (key == "")) [
  | inl blank ↦ inl (ground (arith, blank, eq_iff key ""))
  | inr named ↦ elim (Option-cases (lookup key cooldowns.until)) [
    | inl missing ↦ inr (inl missing)
    | inr (t, at) ↦ inr (inr (t, at, ground (arith, h, named, at)))
  ]
]

is_named : {A : Type 0} {word : String} → (word == "") ≡ false → word ≡ "" → A
is_named {word = word} named e = absurd (ground (arith, named, e, eq_iff word ""))

abbrev reason_text : Bool → Bool → Bool → Bool → Bool → Bool → Bool → String
reason_text off s blank_url v blank_account r blank_key =
    if off
    then "provider_disabled"
    else if s && blank_url
    then "searxng_url_missing"
    else if v
    then (if blank_account then "service_account_missing" else "")
    else if r && blank_key
    then "api_key_missing"
    else ""

reason_flags :
    (off s blank_url v blank_account r blank_key : Bool)
    → reason_text off s blank_url v blank_account r blank_key ≡ ""
    → (off ≡ false)
      × ((s && blank_url) ≡ false)
      × ((v && blank_account) ≡ false)
      × ((not v && (r && blank_key)) ≡ false)
reason_flags true s u v a r k h = is_named refl h
reason_flags false true true v a r k h = is_named refl h
reason_flags false true false true true r k h = is_named refl h
reason_flags false true false true false r k h = (refl, refl, refl, refl)
reason_flags false true false false a true true h = is_named refl h
reason_flags false true false false a true false h = (refl, refl, refl, refl)
reason_flags false true false false a false k h = (refl, refl, refl, refl)
reason_flags false false u true true r k h = is_named refl h
reason_flags false false u true false r k h = (refl, refl, refl, refl)
reason_flags false false u false a true true h = is_named refl h
reason_flags false false u false a true false h = (refl, refl, refl, refl)
reason_flags false false u false a false k h = (refl, refl, refl, refl)

-- what a driver asks for, where the provider is enabled
asks_lem :
    (driver : String) (p : Option Provider)
    → instance_dead_reason driver p ≡ ""
    → (is_disabled p ≡ false)
      × ((driver == "searxng" && is_blank (base_url p)) ≡ false)
      × ((driver == "vertex_search" && is_blank (credential p "service_account_json")) ≡ false)
      × ((not (driver == "vertex_search")
            && (provider_requires_key driver && is_blank (credential p "api_key")))
          ≡ false)
unfolding instance_dead_reason
asks_lem driver p h =
    reason_flags (is_disabled p) (driver == "searxng") (is_blank (base_url p))
      (driver == "vertex_search") (is_blank (credential p "service_account_json"))
      (provider_requires_key driver) (is_blank (credential p "api_key")) h

-- a test that is not passed together with a blank setting
unless_blank :
    (named blank : Bool) (N : Type 0)
    → (N → named ≡ true)
    → (named && blank) ≡ false
    → ¬ N ⊎ (blank ≡ false)
unless_blank true blank N test h = inr h
unless_blank false blank N test h = inl (λ n. ground (arith, test n))

keyed_test :
    (driver : String)
    → In driver keyed_drivers
    → (not (driver == "vertex_search") && provider_requires_key driver) ≡ true
unfolding provider_requires_key
keyed_test driver keyed = elim (Bool-cases (any (λ c. c == driver) keyed_drivers)) [
  | inr other ↦ absurd (any_In driver keyed_drivers other keyed)
  | inl needs ↦ elim (Bool-cases (driver == "vertex_search")) [
    | inr apart ↦ ground (arith, needs, apart)
    | inl vertex ↦
        let same : driver ≡ "vertex_search" =
          ground (arith, vertex, eq_iff driver "vertex_search") in
        let none_is : any (λ c. c == "vertex_search") keyed_drivers ≡ false = refl in
        absurd (ground (arith, needs, none_is, (ap (λ d. any (λ c. c == d) keyed_drivers) same)))
  ]
]

configured_lem :
    (driver : String) (p : Option Provider)
    → instance_dead_reason driver p ≡ ""
    → IsConfigured driver p
configured_lem driver p h =
    let (on, searxng, vertex, keyed) = asks_lem driver p h in
    (
      enabled_lem p on,
      unless_blank _ _ _ (λ e. ground (arith, e, eq_iff driver "searxng")) searxng,
      unless_blank _ _ _ (λ e. ground (arith, e, eq_iff driver "vertex_search")) vertex,
      unless_blank (not (driver == "vertex_search") && provider_requires_key driver) _ _
          (keyed_test driver) (ground (arith, keyed)),
    )

skip_reason-none :
    (c : Context) (n : ChainNode) (w : World)
    → (skip_reason c n w).0 ≡ ""
    → (instance_dead_reason (driver_of c n) (lookup n.provider_id c.providers) ≡ "")
      × (is_dead n.provider_id w ≡ false)
      × ((blocked n.provider_id (c.env.now w.calls) w.cooldowns).0 ≡ false)
unfolding skip_reason
skip_reason-none c n w h = ground (
  arith,
  eq_iff (instance_dead_reason (driver_of c n) (lookup n.provider_id c.providers)) "",
  eq_iff "provider_marked_dead" "",
  eq_iff "provider_cooldown" "",
)

-- A block that is resolved without a reason to skip, by a driver that is known: its provider is enabled, if it is in the
-- table of providers, and has the address, the service account or the key that its driver needs; it was not given up in
-- this request; and the breaker has no time for it that is still to come.
pub resolve_node-ready :
    (c : Context) (n : ChainNode) (w : World)
    → (resolve_node c n w).0.reason ≡ ""
    → (resolve_node c n w).0.known ≡ true
    → IsConfigured (driver_of c n) (lookup n.provider_id c.providers)
      × ¬ In n.provider_id w.dead
      × IsOpen n.provider_id (c.env.now w.calls) w.cooldowns
unfolding resolve_node is_dead
resolve_node-ready c n w alive known =
    let reason : (skip_reason c n w).0 ≡ "" = rw (known, resolve_node) at alive in
    let (instance, live, closed) = skip_reason-none c n w reason in
    (
      configured_lem (driver_of c n) (lookup n.provider_id c.providers) instance,
      any_In n.provider_id w.dead live,
      open_lem n.provider_id (c.env.now w.calls) w.cooldowns closed,
    )
