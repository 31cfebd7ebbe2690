-- ===== src/Engine/Legacy.antt =====
-- runFullChainLegacy: the linear walk of chains without a start block.
use serpent_seek.Prelude.{
  ℕ, zero, suc, ◌+◌, String, true, false, not, ◌&&◌, Option, none, some, List, [], ◌∷◌, ◌==◌,
  if◌then◌else◌,
}
use serpent_seek.Models.{ChainNode, Row}
use serpent_seek.Plan.{is_provider, next_in_full_chain}
use serpent_seek.Merge.{Merger, new_merger, add, has_text, collected_total, unique_count}
use serpent_seek.Engine.State.{Context, World, Target, NodeRun, merge_progress, has_budget, publish}
use serpent_seek.Engine.Words.{has_rows, is_blank}
use serpent_seek.Engine.Resolve.{resolve_node, record_skip}
use serpent_seek.Engine.Attempt.{exec_node}
use serpent_seek.Engine.Finish.{Output, finish_full}

pub record LegacyState : Type 0 where
  pub node : Option ChainNode
  pub visited : List String
  pub idx : ℕ
  pub merged : Merger
  pub last_status : String
  pub last_err : String
  pub world : World

-- merged.add, and the event when it changed anything
unfoldable pub merge_rows : Context → String → List Row → Merger → World → Merger × World
merge_rows c display rows m w =
    let (changed, m') = add c.link_key display rows m in
    (m', if changed then publish (merge_progress (collected_total m') (unique_count m')) w else w)

unfoldable pub legacy_run :
    Context → ChainNode → Target → LegacyState → NodeRun × World → LegacyState
legacy_run c n t s (run, w) =
    let moved = record s { node = next_in_full_chain c.plan n; idx = s.idx + 1; world = w } in
    if run.result.ok && has_rows run.rows
    then (let (m, w') = merge_rows c t.display run.rows s.merged w in
        record moved { last_status = "ok"; merged = m; world = w' })
    else if run.result.ok && t.answer && not (is_blank run.result.answer)
    then record moved { last_status = "ok" }
    else if run.result.ok
    then record moved { last_status = "empty" }
    else record moved {
      last_status = "fail";
      last_err = if run.result.error == "" then s.last_err else run.result.error;
    }

unfoldable pub legacy_resolved : Context → ChainNode → LegacyState → Target × World → LegacyState
legacy_resolved c n s (t, w) =
    if t.reason == "" then legacy_run c n t s (exec_node c s.idx n t w) else record s {
      node = next_in_full_chain c.plan n;
      idx = s.idx + 1;
      last_status = "skip";
      world = record_skip s.idx n t w;
    }

-- the body of the loop, for a node that was not visited before
unfoldable pub legacy_round : Context → ChainNode → LegacyState → LegacyState
legacy_round c n s =
    let seen = record s { visited = n.key ∷ s.visited } in
    if is_provider n
    then legacy_resolved c n seen (resolve_node c n s.world)
    else record seen { node = next_in_full_chain c.plan n }

unfoldable pub legacy_end : Context → LegacyState → Output
legacy_end c s = finish_full c s.merged s.last_status s.last_err s.world

-- `none` means that the fuel ran out.
unfoldable pub legacy_loop : ℕ → Context → LegacyState → Option Output
legacy_loop zero c s = none
legacy_loop (suc fuel) c s = elim s.node [
  | none ↦ some (legacy_end c s)
  | some n ↦ elim (has_budget c s.world && not (has_text n.key s.visited)) [
    | false ↦ some (legacy_end c s)
    | true ↦ legacy_loop fuel c (legacy_round c n s)
  ]
]

unfoldable pub legacy_start : Context → World → LegacyState
legacy_start c w = record {
  node = some c.plan.start;
  visited = [];
  idx = 0;
  merged = new_merger;
  last_status = "";
  last_err = "";
  world = w;
}

unfoldable pub run_full_chain_legacy : ℕ → Context → World → Option Output
run_full_chain_legacy fuel c w = legacy_loop fuel c (legacy_start c w)
