-- ===== src/Engine/Resolve.antt =====
-- resolveNode, the dead reasons, and recordSkip.
use serpent_seek.Prelude.{
  ℕ, pos, String, Bool, false, not, ◌&&◌, Option, none, some, List, [], ◌∷◌, lookup, or_else, any,
  append_text, trim_space, to_lower, ◌==◌, if◌then◌else◌,
}
use serpent_seek.Models.{ChainNode, Provider}
use serpent_seek.Plan.{folds_to_answer}
use serpent_seek.Cooldown.{blocked}
use serpent_seek.Engine.State.{
  Context, World, Target, RequestStep, step_finished, is_dead, save_step, publish,
}
use serpent_seek.Engine.Words.{is_blank}

-- The providers that need an API key.
abbrev pub keyed_drivers : List String
keyed_drivers =
    "apiserpent" ∷ "serpbase" ∷ "yandex" ∷ "yandex_gen" ∷ "google" ∷ "google_vertex" ∷ "google_cse"
    ∷ "brave" ∷ "serper" ∷ "serpapi" ∷ "searchapi" ∷ "dataforseo" ∷ "youcom" ∷ "jina" ∷ "firecrawl"
    ∷ "mojeek" ∷ "marginalia" ∷ "tavily" ∷ "exa" ∷ "linkup" ∷ "perplexity" ∷ "valyu" ∷ "parallel"
    ∷ "kagi" ∷ "vectara" ∷ "anthropic" ∷ "kimi_search" ∷ "kimi_search_pro" ∷ "deepseek_search"
    ∷ "ollama" ∷ []

unfoldable pub provider_requires_key : String → Bool
provider_requires_key code = any (λ c. c == code) keyed_drivers

unfoldable pub credential : Option Provider → String → String
credential none key = ""
credential (some p) key = or_else (lookup key p.credentials) ""

unfoldable pub provider_display : String → Option Provider → String
provider_display id none = id
provider_display id (some p) =
    if not (is_blank p.name) then p.name else if not (p.code == "") then p.code else id

unfoldable pub is_disabled : Option Provider → Bool
is_disabled none = false
is_disabled (some p) = not p.enabled

unfoldable pub base_url : Option Provider → String
base_url none = ""
base_url (some p) = p.base_url

unfoldable pub instance_dead_reason : String → Option Provider → String
unfolding is_disabled base_url credential provider_requires_key
instance_dead_reason driver p =
    if is_disabled p
    then "provider_disabled"
    else if driver == "searxng" && is_blank (base_url p)
    then "searxng_url_missing"
    else if driver == "vertex_search"
    then (if is_blank (credential p "service_account_json") then "service_account_missing" else "")
    else if provider_requires_key driver && is_blank (credential p "api_key")
    then "api_key_missing"
    else ""

unfoldable pub driver_of : Context → ChainNode → String
driver_of c n = elim (lookup n.provider_id c.providers) [
  | none ↦ n.provider_id
  | some p ↦ to_lower p.code
]

-- Registry.Get
unfoldable pub is_registered : Context → String → Bool
is_registered c code = let word = to_lower (trim_space code) in any (λ r. r == word) c.registry

unfoldable pub is_answer : ChainNode → Bool
unfolding folds_to_answer
is_answer n = folds_to_answer (trim_space n.mode)

-- The reason to skip, found in order; the breaker is asked only where nothing else speaks against
-- the node, and an unknown driver has the last word.
unfoldable pub skip_reason : Context → ChainNode → World → String × World
skip_reason c n w =
    let inst_reason = instance_dead_reason (driver_of c n) (lookup n.provider_id c.providers) in
    if not (inst_reason == "")
    then (inst_reason, w)
    else if is_dead n.provider_id w
    then ("provider_marked_dead", w)
    else let (stopped, cooldowns) = blocked n.provider_id (c.env.now w.calls) w.cooldowns in
      (if stopped then "provider_cooldown" else "", record w { cooldowns = cooldowns })

unfoldable pub resolve_node : Context → ChainNode → World → Target × World
resolve_node c n w =
    let (reason, w') = skip_reason c n w in
    let known = is_registered c (driver_of c n) in
    (
      record {
        inst = lookup n.provider_id c.providers;
        driver = driver_of c n;
        display = provider_display n.provider_id (lookup n.provider_id c.providers);
        known = known;
        answer = is_answer n;
        reason = if known then reason else append_text "unknown_driver:" (driver_of c n);
      },
      w',
    )

unfoldable pub skip_step : ℕ → ChainNode → Target → RequestStep
skip_step idx n t = record {
  idx = idx;
  node_key = n.key;
  provider = t.display;
  engine = "";
  attempt_no = 1;
  stage = "";
  status = "skip";
  kind = "skip";
  http_status = pos 0;
  error = t.reason;
  permanent = false;
  results_count = 0;
  wait_before_ms = 0;
  took_ms = 0;
  charged = false;
}

unfoldable pub record_skip : ℕ → ChainNode → Target → World → World
record_skip idx n t w =
    publish (step_finished (skip_step idx n t)) (save_step (skip_step idx n t) w)
