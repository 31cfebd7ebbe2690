-- ===== src/Engine/Budget.antt =====
-- execNode of internal/engine/engine.go and the attempt budget.
use serpent_seek.Prelude.{
  ℕ, zero, suc, ◌+◌, ◌≤◌, ◌<◌, String, ◌≡◌, refl, Bool, true, false, List, [], ◌∷◌, length, arith,
  length-append, ◌⊎◌, inl, inr,
}
use mathlib.Core.Path.{subst, sym}
use serpent_seek.Models.{ChainNode, Result, Row}
use serpent_seek.Engine.State.{
  Context, World, Target, StageCall, step_started, step_finished, provider_dead, take_step,
  add_steps, mark_dead, save_step, publish,
}
use serpent_seek.Engine.Words.{attempts_of}
use serpent_seek.Engine.Attempt.{
  no_result, reply_of, result_of, stages_of, will_sleep, save_stages, stage_step, attempt_step,
  keep_answer, observe_attempt, attempt_world, Verdict, win, dead, gone, again, judge, attempt_loop,
  exec_node,
}

-- The attempts made so far are within the budget, are counted as steps, and each has a saved step.
pub record IsAccounted (c : Context) (w : World) : Type 0 where
  pub within : w.calls ≤ c.max_attempts
  pub counted : w.calls ≤ w.step_no
  pub recorded : w.calls ≤ length w.steps

save_stages-counts :
    (c : Context) (idx : ℕ) (n : ChainNode) (t : Target) (attempt : ℕ) (r : Result)
    (ss : List StageCall) (w : World)
    → ((save_stages c idx n t attempt r ss w).calls ≡ w.calls)
      × ((save_stages c idx n t attempt r ss w).step_no ≡ w.step_no)
      × (length w.steps ≤ length (save_stages c idx n t attempt r ss w).steps)
      × ((save_stages c idx n t attempt r ss w).dead ≡ w.dead)
unfolding save_stages
save_stages-counts c idx n t attempt r [] w = (refl, refl, omega arith, refl)
save_stages-counts c idx n t attempt r (s ∷ ss) w =
    let step = stage_step c idx n t attempt r s in
    let rest =
      save_stages-counts c idx n t attempt r ss (publish (step_finished step) (save_step step w)) in
    (rest.0, rest.1, omega (arith, rest.2, length-append w.steps (step ∷ [])), rest.3)

-- what one attempt does to the counters
pub record Spends (w w' : World) : Type 0 where
  pub calls : w'.calls ≡ w.calls + 1
  pub step_no : w.step_no ≤ w'.step_no
  pub steps : length w.steps + 1 ≤ length w'.steps

pub attempt_world-Spends :
    (c : Context) (idx : ℕ) (n : ChainNode) (t : Target) (attempt : ℕ) (w : World)
    → Spends w (attempt_world c idx n t attempt w)
unfolding attempt_world save_step publish add_steps keep_answer observe_attempt
attempt_world-Spends c idx n t attempt w =
    let reply = reply_of c n attempt w in
    let r = result_of c t reply in
    let step = attempt_step c idx n t attempt reply r (will_sleep c n attempt r w) in
    let called = record w { calls = w.calls + 1 } in
    let told = publish (step_started idx n.key t.display attempt) called in
    let saved = publish (step_finished step) (save_step step (keep_answer t r told)) in
    let counts =
      save_stages-counts c idx n t attempt r (stages_of reply) (observe_attempt c n r saved) in
    record {
      calls = ground (arith, counts);
      step_no = ground (arith, counts);
      steps = ground (arith, counts, length-append w.steps (step ∷ []));
    }

pub take_step-cases :
    (c : Context) (w : World)
    → ((take_step c w).0 ≡ false) × ((take_step c w).1 ≡ w) × (c.max_attempts ≤ w.step_no)
      ⊎ ((take_step c w).0 ≡ true)
        × ((take_step c w).1 ≡ record w { step_no = w.step_no + 1 })
        × (w.step_no < c.max_attempts)
unfolding take_step
take_step-cases c w = ground arith

pub Verdict-cases :
    (v : Verdict) → ((rows : List Row) × (v ≡ win rows)) ⊎ (v ≡ dead) ⊎ (v ≡ gone) ⊎ (v ≡ again)
Verdict-cases (win rows) = inl (rows, refl)
Verdict-cases dead = inr (inl refl)
Verdict-cases gone = inr (inr (inl refl))
Verdict-cases again = inr (inr (inr refl))

module _ (c : Context) (idx : ℕ) (n : ChainNode) (t : Target) where
  -- the world after a reserved step
  abbrev reserve : World → World
  reserve w = record w { step_no = w.step_no + 1 }

  -- A property of the world that an attempt and the loss of a provider keep is kept by the loop.
  attempt_rule :
      (P : World → Type 0)
      → ((attempt : ℕ) (w : World)
          → P w
          → w.step_no < c.max_attempts
          → P (attempt_world c idx n t attempt (reserve w)))
      → ((e : String) (w : World)
          → P w
          → P (publish (provider_dead t.display e) (mark_dead n.provider_id w)))
      → (left attempt : ℕ) (last : Result) (attempted : Bool) (w : World) → P w
      → P (attempt_loop c idx n t left attempt last attempted w).1
  unfolding attempt_loop
  attempt_rule P keep lose zero attempt last attempted w v = v
  attempt_rule P keep lose (suc left) attempt last attempted w v = elim (take_step-cases c w) [
    | inl (spent, same, full) ↦ rw (spent, attempt_loop) (rw same v)
    | inr (taken, moved, room) ↦
        let w₁ = (take_step c w).1 in
        let reply = reply_of c n attempt w₁ in
        let r = result_of c t reply in
        let v' : P (attempt_world c idx n t attempt w₁) =
          subst (λ x. P (attempt_world c idx n t attempt x)) (sym moved) (keep attempt w v room) in
        rw (taken, attempt_loop)
          (elim (Verdict-cases (judge c n t r (will_sleep c n attempt r w₁) reply.slept)) [
            | inl (rows, e) ↦ rw (e, attempt_loop) v'
            | inr (inl e) ↦ rw (e, attempt_loop) (lose r.error _ v')
            | inr (inr (inl e)) ↦ rw (e, attempt_loop) v'
            | inr (inr (inr e)) ↦
                rw (e, attempt_loop) (attempt_rule P keep lose left (attempt + 1) r true _ v')
          ])
  ]

  attempt-IsAccounted :
      (attempt : ℕ) (w : World)
      → IsAccounted c w
      → w.step_no < c.max_attempts
      → IsAccounted c (attempt_world c idx n t attempt (reserve w))
  attempt-IsAccounted attempt w v room =
      let s = attempt_world-Spends c idx n t attempt (reserve w) in
      omega (arith, v, s.calls, s.step_no, s.steps)

  dead-IsAccounted :
      (e : String) (w : World)
      → IsAccounted c w
      → IsAccounted c (publish (provider_dead t.display e) (mark_dead n.provider_id w))
  unfolding publish mark_dead
  dead-IsAccounted e w v = record { within = v.within; counted = v.counted; recorded = v.recorded }

  -- If the attempts of a request are within its budget, are counted as steps and have a step
  -- handed to the store each, then this is so after a block too, whatever the upstream replies.
  pub exec_node-IsAccounted :
      (w : World) → IsAccounted c w → IsAccounted c (exec_node c idx n t w).1
  unfolding exec_node
  exec_node-IsAccounted w v =
      attempt_rule (IsAccounted c) attempt-IsAccounted dead-IsAccounted (attempts_of n) 0 no_result
        false w v
