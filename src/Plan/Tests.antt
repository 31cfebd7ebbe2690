-- ===== src/Plan/Tests.antt =====
-- Runs of the plan on the sample chains.
use serpent_seek.Prelude.{◌≡◌, refl, some, [], ◌∷◌, lookup, insert, trim_space, to_lower}
use serpent_seek.Models.{Chain, ChainEdge, Outcome}
use serpent_seek.Plan.{
  ok, err, no_start_node, kind, is_kind_start, index_nodes, index_edges, order_of, first_node,
  entry, build_plan, default_policy, policy_for, is_neutral, edge_matches, out_edges, follow,
  choose_next, next,
}
use serpent_seek.Plan.Steps.{Leads, Chosen, next-Leads}
use serpent_seek.Samples.{chain_of, plan_of, start_block, first_block, second_block}

abbrev sample : Chain
sample = chain_of "full_chain"

built_sample : build_plan sample ≡ ok (plan_of "full_chain")
unfolding build_plan index_nodes index_edges order_of first_node entry kind is_kind_start lookup
    insert trim_space to_lower
built_sample = refl

moves_on : next (plan_of "full_chain") first_block Outcome.fail ≡ some second_block
unfolding next default_policy policy_for is_neutral edge_matches out_edges follow choose_next lookup
    trim_space to_lower
moves_on = refl

next-Leads_example :
    (e : ChainEdge) × Leads sample first_block second_block e
    × Chosen sample (plan_of "full_chain") built_sample first_block second_block Outcome.fail e
next-Leads_example =
    next-Leads sample (plan_of "full_chain") built_sample first_block second_block Outcome.fail
      moves_on

found_start : lookup "s" (plan_of "full_chain").nodes ≡ some start_block
unfolding lookup
found_start = refl

abbrev headless : Chain
headless = record (chain_of "full_chain") { nodes = first_block ∷ second_block ∷ [] }

headless_fails : build_plan headless ≡ err no_start_node
unfolding build_plan index_nodes index_edges order_of first_node entry kind is_kind_start lookup
    insert trim_space to_lower
headless_fails = refl

found_block : lookup "b" (index_nodes headless.nodes []) ≡ some second_block
unfolding lookup index_nodes insert
found_block = refl
