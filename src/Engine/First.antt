-- ===== src/Engine/First.antt =====
-- runFirstSuccess: the first usable result stops the chain.
use serpent_seek.Prelude.{
  ℕ, zero, suc, ◌+◌, String, Bool, true, false, not, ◌&&◌, ◌||◌, Option, none, some, List, [], ltb,
  ◌==◌, join, if◌then◌else◌,
}
use serpent_seek.Models.{ChainNode, Result, Row, Outcome}
use serpent_seek.Plan.{is_provider, next, first_neutral, default_policy}
use serpent_seek.Merge.{Merger, new_merger, add, providers, rows_up_to, unique_count}
use serpent_seek.Engine.State.{Context, World, Target, NodeRun, has_budget}
use serpent_seek.Engine.Words.{
  treat_empty_as_fail, allow_sparse_sources, outcome_of, outcome_of_answer, provider_rows, has_rows,
}
use serpent_seek.Engine.Resolve.{resolve_node, record_skip}
use serpent_seek.Engine.Attempt.{exec_node, no_result}
use serpent_seek.Engine.Finish.{Output, finalize}

-- the variables of the loop
pub record FirstState : Type 0 where
  pub node : Option ChainNode
  pub idx : ℕ
  pub last : Result
  pub merged : Merger
  pub world : World

pub data FirstMove : Type 0 where
  go : FirstState → FirstMove
  done : Output → FirstMove

-- on_success, which only chains with a start block honour
unfoldable pub continues : Bool → ChainNode → Bool
continues logical_new n = logical_new && not (default_policy n.on_success "stop" == "stop")

unfoldable pub add_if_rows : Context → Target → List Row → Merger → Merger
add_if_rows c t rows m = if has_rows rows then (add c.link_key t.display rows m).1 else m

-- the result of a success that ends the chain
unfoldable pub stop_with : Context → Target → List Row → Merger → World → Output
stop_with c t rows m w =
    let m' = (add c.link_key t.display rows m).1 in
    if ltb 0 (unique_count m)
    then finalize "ok" (provider_rows (rows_up_to c.count m') c.count) (join (providers m') ", ") w
    else finalize "ok" (provider_rows rows c.count) t.display w

-- the outcome that steers the walk after a block that did not win
unfoldable pub failed_outcome : Context → ChainNode → Target → Result → Outcome
failed_outcome c n t r =
    if t.answer
    then outcome_of_answer r (allow_sparse_sources c.settings n)
    else outcome_of r (treat_empty_as_fail c.settings n)

unfoldable pub after_run :
    Context → Bool → ChainNode → Target → FirstState → NodeRun × World → FirstMove
after_run c logical_new n t s (run, w) =
    if run.won
    then (if continues logical_new n
        then go (record {
          node = next c.plan n Outcome.success;
          idx = s.idx + 1;
          last = run.result;
          merged = add_if_rows c t run.rows s.merged;
          world = w;
        })
        else done (stop_with c t run.rows s.merged w))
    else go (record {
      node = next c.plan n (failed_outcome c n t run.result);
      idx = s.idx + 1;
      last = run.result;
      merged = s.merged;
      world = w;
    })

-- a provider block that is skipped goes on as a failed one
unfoldable pub after_resolve : Context → Bool → ChainNode → FirstState → Target × World → FirstMove
after_resolve c logical_new n s (t, w) =
    if t.reason == ""
    then after_run c logical_new n t s (exec_node c s.idx n t w)
    else go (record s {
      node = next c.plan n Outcome.fail;
      idx = s.idx + 1;
      world = record_skip s.idx n t w;
    })

-- the body of the loop; logical blocks are transparent
unfoldable pub first_round : Context → Bool → ChainNode → FirstState → FirstMove
first_round c logical_new n s =
    if is_provider n
    then after_resolve c logical_new n s (resolve_node c n s.world)
    else go (record s { node = first_neutral c.plan n })

unfoldable pub failed_status : Result → String
failed_status last = if last.kind == "ok" then "empty" else "fail"

-- the error that the last result leaves on the request
unfoldable pub with_last_error : Result → World → World
with_last_error last w =
    if last.kind == "" || last.kind == "ok" || last.error == ""
    then w
    else record w { error = last.error }

-- after the loop: collected rows win over a trailing failure
unfoldable pub first_end : Context → FirstState → Output
first_end c s =
    if ltb 0 (unique_count s.merged)
    then finalize "ok" (rows_up_to c.count s.merged) (join (providers s.merged) ", ") s.world
    else finalize (failed_status s.last) [] "" (with_last_error s.last s.world)

-- `none` means that the fuel ran out.
unfoldable pub first_loop : ℕ → Context → Bool → FirstState → Option Output
first_loop zero c logical_new s = none
first_loop (suc fuel) c logical_new s = elim s.node [
  | none ↦ some (first_end c s)
  | some n ↦ elim (has_budget c s.world) [
    | false ↦ some (first_end c s)
    | true ↦ elim (first_round c logical_new n s) [
      | go s' ↦ first_loop fuel c logical_new s'
      | done out ↦ some out
    ]
  ]
]

unfoldable pub first_start : Context → World → FirstState
first_start c w = record {
  node = some c.plan.start;
  idx = 0;
  last = no_result;
  merged = new_merger;
  world = w;
}

unfoldable pub run_first_success : ℕ → Context → Bool → World → Option Output
run_first_success fuel c logical_new w = first_loop fuel c logical_new (first_start c w)
