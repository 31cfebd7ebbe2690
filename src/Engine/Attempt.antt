-- ===== src/Engine/Attempt.antt =====
-- execNode: the attempt loop of one block.
use serpent_seek.Prelude.{
  ℕ, zero, suc, ◌+◌, ◌-◌, ◌*◌, pos, to_ℕ, String, Bool, true, false, not, ◌&&◌, ◌||◌, List, [], ◌∷◌,
  length, ltb, append_text, ◌==◌, if◌then◌else◌,
}
use serpent_seek.Models.{ChainNode, Result, Row}
use serpent_seek.Cooldown.{observe}
use serpent_seek.Engine.State.{
  Context, World, Target, NodeRun, RequestStep, StageCall, Reply, step_started, step_finished,
  provider_dead, has_budget, take_step, add_steps, mark_dead, save_step, publish,
}
use serpent_seek.Engine.Words.{
  is_blank, has_rows, treat_empty_as_fail, allow_sparse_sources, backoff_delay, cap_delay,
  attempts_of,
}

abbrev pub no_result : Result
no_result = record {
  ok = false;
  rows = [];
  kind = "";
  error = "";
  permanent = false;
  http_status = pos 0;
  engine = "";
  provider = "";
  retry_after_ms = pos 0;
  quota_remaining = pos 0;
  quota_max = pos 0;
  has_quota = false;
  answer = "";
}

-- the reply of attempt number `attempt` of the block
unfoldable pub reply_of : Context → ChainNode → ℕ → World → Reply
reply_of c n attempt w = c.env.reply w.calls n.provider_id attempt

-- The driver's result, or a timeout where the limiter gave no slot; labelled and redacted.
unfoldable pub result_of : Context → Target → Reply → Result
result_of c t r =
    let raw = if r.acquired then r.result else (record no_result {
      kind = "timeout";
      error = append_text "engine: waiting for concurrency slot: " r.acquire_error;
    }) in
    record raw { provider = t.display; error = c.redact raw.error }

unfoldable pub stages_of : Reply → List StageCall
stages_of r = if r.acquired then r.stages else []

-- Sources of an answer node reach the rows only when sparse sources are allowed.
unfoldable pub step_rows : Context → ChainNode → Target → Result → List Row
step_rows c n t r = if t.answer && not (allow_sparse_sources c.settings n) then [] else r.rows

unfoldable pub will_sleep : Context → ChainNode → ℕ → Result → World → Bool
will_sleep c n attempt r w =
    not r.ok && not r.permanent && ltb (attempt + 1) (attempts_of n) && has_budget c w

-- the node's backoff, raised to the upstream's demand if that is larger
unfoldable pub delay_of : ChainNode → ℕ → Result → ℕ
delay_of n attempt r =
    let demand = cap_delay r.retry_after_ms in
    let own = backoff_delay n attempt in if ltb own demand then demand else own

unfoldable pub status_of : Target → Result → List Row → String
status_of t r rows =
    if r.ok && t.answer && not (is_blank r.answer)
    then "ok"
    else if r.ok && has_rows rows
    then "ok"
    else if r.ok
    then "empty"
    else "fail"

unfoldable pub attempt_step :
    Context → ℕ → ChainNode → Target → ℕ → Reply → Result → Bool → RequestStep
attempt_step c idx n t attempt reply r sleeps =
    let rows = step_rows c n t r in
    record {
      idx = idx;
      node_key = n.key;
      provider = t.display;
      engine = r.engine;
      attempt_no = attempt + 1;
      stage = "";
      status = status_of t r rows;
      kind = r.kind;
      http_status = r.http_status;
      error = r.error;
      permanent = r.permanent;
      results_count = length rows;
      wait_before_ms = if sleeps then delay_of n attempt r else 0;
      took_ms = reply.took_ms;
      charged = reply.acquired;
    }

unfoldable pub stage_step : Context → ℕ → ChainNode → Target → ℕ → Result → StageCall → RequestStep
stage_step c idx n t attempt r s =
    let failed = not (s.error == "") in
    record {
      idx = idx;
      node_key = n.key;
      provider = t.display;
      engine = r.engine;
      attempt_no = attempt + 1;
      stage = s.stage;
      status = if failed then "fail" else "ok";
      kind = if failed then s.error_kind else "ok";
      http_status = s.http_status;
      error = if failed then c.redact s.error else "";
      permanent = false;
      results_count = 0;
      wait_before_ms = 0;
      took_ms = s.took_ms;
      charged = false;
    }

-- one saved and published step for each upstream call of a multi-call driver
unfoldable pub save_stages :
    Context → ℕ → ChainNode → Target → ℕ → Result → List StageCall → World → World
unfolding save_step publish stage_step
save_stages c idx n t attempt r [] w = w
save_stages c idx n t attempt r (s ∷ ss) w =
    let step = stage_step c idx n t attempt r s in
    save_stages c idx n t attempt r ss (publish (step_finished step) (save_step step w))

unfoldable pub keep_answer : Target → Result → World → World
keep_answer t r w =
    if t.answer && not (is_blank r.answer) then record w { answer = r.answer } else w

unfoldable pub observe_attempt : Context → ChainNode → Result → World → World
observe_attempt c n r w =
    let (_, cooldowns) =
      observe n.provider_id r.ok c.settings.provider_failures
        (pos (to_ℕ c.settings.provider_cooldown * 1_000_000_000)) (c.env.now w.calls) w.cooldowns in
    record w { cooldowns = cooldowns }

-- Everything that one attempt does before its result is judged. The step is already reserved.
unfoldable pub attempt_world : Context → ℕ → ChainNode → Target → ℕ → World → World
attempt_world c idx n t attempt w =
    let reply = reply_of c n attempt w in
    let r = result_of c t reply in
    let step = attempt_step c idx n t attempt reply r (will_sleep c n attempt r w) in
    let called = record w { calls = w.calls + 1 } in
    let told = publish (step_started idx n.key t.display attempt) called in
    let saved = publish (step_finished step) (save_step step (keep_answer t r told)) in
    let staged = save_stages c idx n t attempt r (stages_of reply) (observe_attempt c n r saved) in
    add_steps (length (stages_of reply) - 1) staged

pub data Verdict : Type 0 where
  win : List Row → Verdict
  dead gone again : Verdict

-- what the loop does next: return rows, give the provider up, stop since the sleep was cut short, or
-- go on
unfoldable pub judge : Context → ChainNode → Target → Result → Bool → Bool → Verdict
judge c n t r sleeps slept =
    let rows = step_rows c n t r in
    if r.ok && t.answer && (not (is_blank r.answer) || has_rows rows)
    then win rows
    else if r.ok && not t.answer && (has_rows r.rows || not (treat_empty_as_fail c.settings n))
    then win r.rows
    else if r.permanent
    then dead
    else if sleeps && not slept
    then gone
    else again

unfoldable pub lost : Result → Bool → NodeRun
lost r attempted = record { rows = []; won = false; result = r; attempted = attempted }

module _ (c : Context) (idx : ℕ) (n : ChainNode) (t : Target) where
  unfoldable pub attempt_loop : ℕ → ℕ → Result → Bool → World → NodeRun × World
  attempt_loop zero attempt last attempted w = (lost last attempted, w)
  attempt_loop (suc left) attempt last attempted w =
      let (taken, w₁) = take_step c w in
      elim taken [
        | false ↦ (lost last attempted, w₁)
        | true ↦
            let reply = reply_of c n attempt w₁ in
            let r = result_of c t reply in
            let w₂ = attempt_world c idx n t attempt w₁ in
            elim (judge c n t r (will_sleep c n attempt r w₁) reply.slept) [
              | win rows ↦ (record { rows = rows; won = true; result = r; attempted = true }, w₂)
              | dead ↦ (
                lost r true,
                publish (provider_dead t.display r.error) (mark_dead n.provider_id w₂),
              )
              | gone ↦ (lost r true, w₂)
              | again ↦ attempt_loop left (attempt + 1) r true w₂
            ]
      ]

  unfoldable pub exec_node : World → NodeRun × World
  exec_node = attempt_loop (attempts_of n) 0 no_result false
