-- ===== src/Engine/State.antt =====
-- The state of one request, and what the engine is given: settings, providers, the plan, and the
-- replies of the upstream calls. `Sink` is modelled by the lists of saved steps and published events.
use serpent_seek.Prelude.{
  ℕ, ◌+◌, ℤ, String, Bool, true, false, Option, none, List, [], ◌∷◌, ◌++◌, Dict, ltb, any, leb,
  ◌==◌, if◌then◌else◌,
}
use serpent_seek.Models.{Provider, Result, Row}
use serpent_seek.Plan.{Plan}
use serpent_seek.Cooldown.{Cooldowns}

-- one upstream HTTP call of a multi-call driver (providers.StageCall); `error` is empty for none
pub record StageCall : Type 0 where
  pub stage : String
  pub http_status : ℤ
  pub took_ms : ℕ
  pub error : String
  pub error_kind : String

-- What one attempt meets: whether the limiter gave a slot (and its error if not), the driver's
-- result, the calls that it reported, the time taken, and whether the sleep after it was cut short.
pub record Reply : Type 0 where
  pub acquired : Bool
  pub acquire_error : String
  pub result : Result
  pub stages : List StageCall
  pub took_ms : ℕ
  pub slept : Bool

-- The environment: the moment and the reply of each attempt of the request, by its number. The
-- reply may depend on the provider instance and on the attempt within the block.
pub record Env : Type 0 where
  pub now : ℕ → ℕ
  pub reply : ℕ → String → ℕ → Reply

pub record Settings : Type 0 where
  pub treat_empty_as_fail : Bool
  pub allow_sparse_sources : Bool
  pub provider_failures : ℤ
  pub provider_cooldown : ℤ

-- What does not change during a request.
pub record Context : Type 0 where
  pub env : Env
  pub settings : Settings
  pub registry : List String
  pub providers : Dict Provider
  pub plan : Plan
  pub count : ℕ
  pub max_attempts : ℕ
  pub redact : String → String
  pub link_key : String → String

-- store.RequestStep
pub record RequestStep : Type 0 where
  pub idx : ℕ
  pub node_key : String
  pub provider : String
  pub engine : String
  pub attempt_no : ℕ
  pub stage : String
  pub status : String
  pub kind : String
  pub http_status : ℤ
  pub error : String
  pub permanent : Bool
  pub results_count : ℕ
  pub wait_before_ms : ℕ
  pub took_ms : ℕ
  pub charged : Bool

pub record MergeStats : Type 0 where
  pub collected_total : ℕ
  pub unique_links : ℕ
  pub duplicates_removed : ℕ

-- the events of one request, with the fields that the engine decides
pub data Event : Type 0 where
  step_started : ℕ → String → String → ℕ → Event
  step_finished : RequestStep → Event
  provider_dead : String → String → Event
  merge_progress : ℕ → ℕ → Event
  merge_done : MergeStats → Event
  request_done : String → String → ℕ → Event

-- The mutable part of a request: the walk state (`step_no`, `dead`), the breaker, the fields of the
-- request row, what was saved and published, and the number of attempts made so far.
pub record World : Type 0 where
  pub step_no : ℕ
  pub dead : List String
  pub cooldowns : Cooldowns
  pub answer : String
  pub error : String
  pub merge : Option MergeStats
  pub steps : List RequestStep
  pub events : List Event
  pub calls : ℕ

-- nodeRun
pub record NodeRun : Type 0 where
  pub rows : List Row
  pub won : Bool
  pub result : Result
  pub attempted : Bool

-- nodeTarget
pub record Target : Type 0 where
  pub inst : Option Provider
  pub driver : String
  pub display : String
  pub known : Bool
  pub answer : Bool
  pub reason : String

unfoldable pub has_budget : Context → World → Bool
has_budget c w = ltb w.step_no c.max_attempts

-- Reserves one attempt, or reports that the budget is spent.
unfoldable pub take_step : Context → World → Bool × World
take_step c w =
    if leb c.max_attempts w.step_no
    then (false, w)
    else (true, record w { step_no = w.step_no + 1 })

unfoldable pub add_steps : ℕ → World → World
add_steps n w = record w { step_no = w.step_no + n }

unfoldable pub mark_dead : String → World → World
mark_dead id w = record w { dead = id ∷ w.dead }

unfoldable pub is_dead : String → World → Bool
is_dead id w = any (λ d. d == id) w.dead

-- AddStep is called with a step; the source only logs its error, so these are the steps that are handed to the
-- store, not those that it holds
unfoldable pub save_step : RequestStep → World → World
save_step s w = record w { steps = w.steps ++ s ∷ [] }

unfoldable pub publish : Event → World → World
publish e w = record w { events = w.events ++ e ∷ [] }

abbrev pub new_world : Cooldowns → World
new_world cooldowns = record {
  step_no = 0;
  dead = [];
  cooldowns = cooldowns;
  answer = "";
  error = "";
  merge = none;
  steps = [];
  events = [];
  calls = 0;
}
