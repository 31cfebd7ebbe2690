-- ===== src/Validate/Tests.antt =====
-- Runs of the validator on the sample chains.
use serpent_seek.Prelude.{
  ℕ, pos, String, ◌≡◌, refl, true, none, some, List, [], lookup, insert, keys, trim_space, to_lower,
  arith,
}
use serpent_seek.Plan.{
  ok, kind, is_kind_start, is_provider, is_neutral, folds_to_answer, build_plan, index_nodes,
  index_edges, order_of, first_node, entry,
}
use serpent_seek.Graph.{adjacent, reach_loop, accepted, reachable_from}
use serpent_seek.Graph.Cycle.{color_of, close, and_then, scan, dfs, search_all, find_cycle}
use serpent_seek.Engine.Budget.{IsAccounted}
use serpent_seek.Engine.Finish.{Output}
use serpent_seek.Engine.Run.{run}
use serpent_seek.Engine.Outputs.{IsWellFormed}
use serpent_seek.Validate.{
  validate, validate_graph, all_faults, walk_faults, walk_notices, conclude, first_start, mode_word,
  mode_faults, cycle_faults,
}
use serpent_seek.Validate.Report.{Validation, fault_if, notice_if}
use serpent_seek.Validate.Nodes.{
  node_index, node_faults, node_notices, keyed_faults, keyed_notices, key_faults, kind_faults,
  node_mode_faults, timeout_faults, retry_faults, policy_faults, is_empty_key, is_known_kind,
  is_known_mode, is_known_policy, is_unknown, provider_count,
}
use serpent_seek.Validate.Edges.{
  edge_fault, edge_faults, has_node, is_known_condition, incoming_count, neutral_successor_count,
  neutral_incoming_count,
}
use serpent_seek.Validate.Shape.{
  join_faults, is_join, starts_of, insert_sorted, text_ltb, is_entry, start_faults, neutral_fault,
  each_neutral_fault, neutral_faults, unreachable_faults, potential, budget_notices, next_notices,
  linear_notices,
}
use serpent_seek.Validate.Sound.{IsSound, validate-IsSound}
use serpent_seek.Validate.Runs.{accepted_chain_runs}
use serpent_seek.Samples.{chain_of, context, fresh}

abbrev accepted_verdict : Validation
accepted_verdict = record { ok = true; errors = []; warnings = [] }

-- the order of the map's keys is that of their insertion
abbrev as_inserted : List String → List String
as_inserted ks = ks

sample_accepted :
    validate as_inserted (chain_of "first_success") none (some (pos 10)) ≡ some accepted_verdict
unfolding validate validate_graph all_faults walk_faults walk_notices conclude first_start mode_word
    mode_faults cycle_faults fault_if notice_if node_index node_faults node_notices keyed_faults
    keyed_notices key_faults kind_faults node_mode_faults timeout_faults retry_faults policy_faults
    is_empty_key is_known_kind is_known_mode is_known_policy is_unknown provider_count edge_fault
    edge_faults has_node is_known_condition incoming_count neutral_successor_count
    neutral_incoming_count join_faults is_join starts_of insert_sorted text_ltb is_entry
    start_faults neutral_fault each_neutral_fault neutral_faults unreachable_faults potential
    budget_notices next_notices linear_notices kind is_kind_start is_provider is_neutral
    folds_to_answer adjacent reach_loop accepted reachable_from color_of close and_then scan dfs
    search_all find_cycle lookup insert keys trim_space to_lower
sample_accepted = refl

sample_built : build_plan (chain_of "first_success") ≡ ok (context "first_success").plan
unfolding build_plan index_nodes index_edges order_of first_node entry kind is_kind_start lookup
    insert trim_space to_lower
sample_built = refl

fresh-IsAccounted : IsAccounted (context "first_success") fresh
fresh-IsAccounted = record { within = omega arith; counted = omega arith; recorded = omega arith }

accepted_chain_runs_example :
    (fuel : ℕ) × (out : Output) × (run fuel (context "first_success") as_inserted fresh ≡ some out)
    × IsWellFormed (context "first_success") out
accepted_chain_runs_example =
    accepted_chain_runs as_inserted (λ ks k. refl) (chain_of "first_success") none (some (pos 10))
      accepted_verdict sample_accepted refl (context "first_success") sample_built as_inserted fresh
      fresh-IsAccounted

validate-IsSound_example : IsSound (chain_of "first_success")
validate-IsSound_example =
    validate-IsSound as_inserted (λ ks k. refl) (chain_of "first_success") none (some (pos 10))
      accepted_verdict sample_accepted refl
