-- ===== src/Validate.antt =====
-- internal/engine/validate.go: ValidateChain. The messages are data, in the order in which the code
-- appends them; a message of the source is one constructor with the values that it prints.
pub mod Report
pub mod Nodes
pub mod Shape
pub mod Edges
pub mod Verdict
pub mod Starts
pub mod Clean
pub mod Sound
pub mod Runs
mod Tests
use serpent_seek.Prelude.{
  ℕ, suc, ◌+◌, ℤ, pos, is_positive, to_ℕ, String, Bool, true, false, not, ◌&&◌, ◌||◌, Option, none,
  some, List, [], ◌∷◌, ◌++◌, Dict, lookup, insert, keys, ltb, eqb, length, ◌==◌, if◌then◌else◌,
}
use serpent_seek.Models.{ChainNode, ChainEdge, Chain}
use serpent_seek.Plan.{is_neutral}
use serpent_seek.Graph.{reachable_from}
use serpent_seek.Graph.Cycle.{Search, cycle, finished, find_cycle}
use serpent_seek.Validate.Report.{
  Fault, no_nodes, bad_mode, no_provider_block, has_cycle, Notice, Validation, fault_if, notice_if,
}
use serpent_seek.Validate.Nodes.{node_index, node_faults, node_notices, provider_count}
use serpent_seek.Validate.Edges.{edge_faults}
use serpent_seek.Validate.Shape.{
  join_faults, starts_of, start_faults, neutral_faults, unreachable_faults, budget_notices,
  next_notices, linear_notices,
}

-- the mode that the checks use, an empty one read as the fallback mode
unfoldable pub mode_word : Chain → String
mode_word c = if c.mode == "" then "first_success" else c.mode

unfoldable pub mode_faults : Chain → List Fault
unfolding mode_word
mode_faults c =
    fault_if (not (mode_word c == "first_success" || mode_word c == "full_chain")) (bad_mode c.mode)

unfoldable pub cycle_faults : Search → List Fault
cycle_faults (cycle p) = has_cycle p ∷ []
cycle_faults (finished _) = []

unfoldable pub first_start : List String → String
first_start [] = ""
first_start (k ∷ ks) = k

unfoldable pub conclude : List Fault → List Notice → Validation
conclude [] warnings = record { ok = true; errors = []; warnings = warnings }
conclude (f ∷ fs) warnings = record { ok = false; errors = f ∷ fs; warnings = warnings }

-- `order` is the order in which Go ranges over the keys of a map.
module _ (order : List String → List String) where
  -- the faults of the walks from a single start: what it reaches, and what it reaches by next edges
  unfoldable pub walk_faults : Chain → List String → List String → List Fault
  walk_faults c (start ∷ []) seen = unreachable_faults seen (order (keys (node_index c.nodes [])))
  walk_faults c _ seen = []

  unfoldable pub walk_notices :
      Chain → Option ℤ → List String → List String → List String → List Notice
  unfolding mode_word
  walk_notices c max (start ∷ []) seen next_seen =
      budget_notices max (node_index c.nodes []) (order seen)
      ++ (if mode_word c == "full_chain"
          then next_notices seen next_seen (order (keys (node_index c.nodes [])))
          else [])
      ++ (if mode_word c == "first_success" then linear_notices c.edges start c.nodes else [])
  walk_notices c max _ seen next_seen = []

  unfoldable pub all_faults : Chain → Search → List String → List Fault
  unfolding mode_word mode_faults
  all_faults c search seen =
      mode_faults c
      ++ node_faults 0 c.nodes []
      ++ fault_if (eqb (provider_count c.nodes) 0) no_provider_block
      ++ edge_faults (node_index c.nodes []) c.edges
      ++ join_faults c.edges c.nodes
      ++ start_faults (starts_of c.nodes [])
      ++ neutral_faults (mode_word c == "full_chain") c.edges (starts_of c.nodes []) c.nodes
      ++ cycle_faults search
      ++ walk_faults c (starts_of c.nodes []) seen

  -- the checks of a chain that has nodes
  unfoldable pub validate_graph : Chain → Option (List String) → Option ℤ → Option Validation
  validate_graph c known max =
      let entry = first_start (starts_of c.nodes []) in
      elim (find_cycle (order (keys (node_index c.nodes []))) c.edges) [
        | none ↦ none
        | some search ↦ elim (reachable_from entry c.edges (λ _. true)) [
          | none ↦ none
          | some seen ↦ elim (reachable_from entry c.edges is_neutral) [
            | none ↦ none
            | some next_seen ↦ some (
                conclude (all_faults c search seen) (
                  node_notices known c.nodes
                  ++ walk_notices c max (starts_of c.nodes []) seen next_seen))
          ]
        ]
      ]

  -- ValidateChain of a chain that is there; `none` means that the fuel of a search ran out.
  unfoldable pub validate : Chain → Option (List String) → Option ℤ → Option Validation
  validate c known max = elim c.nodes [
    | [] ↦ some (conclude (no_nodes ∷ []) [])
    | _ ∷ _ ↦ validate_graph c known max
  ]
