-- ===== src/Validate/Edges.antt =====
-- ValidateChain: the checks of the edges, and the counts of neutral edges.
use serpent_seek.Prelude.{
  ℕ, ◌+◌, String, Bool, true, false, not, ◌&&◌, ◌||◌, none, some, List, [], ◌∷◌, ◌++◌, Dict, lookup,
  ◌==◌, if◌then◌else◌,
}
use serpent_seek.Models.{ChainNode, ChainEdge}
use serpent_seek.Plan.{is_neutral}
use serpent_seek.Validate.Report.{Fault, unknown_source, unknown_target, bad_condition, fault_if}

unfoldable pub is_known_condition : String → Bool
is_known_condition c =
    c == "" || c == "next" || c == "any" || c == "success" || c == "empty" || c == "fail"

unfoldable pub has_node : Dict ChainNode → String → Bool
has_node m k = elim (lookup k m) [ none ↦ false | some _ ↦ true ]

unfoldable pub edge_fault : Dict ChainNode → ChainEdge → List Fault
edge_fault m e =
    fault_if (not (has_node m e.from_key)) (unknown_source e.from_key)
    ++ fault_if (not (has_node m e.to_key)) (unknown_target e.to_key)
    ++ fault_if (not (is_known_condition e.condition))
        (bad_condition e.from_key e.to_key e.condition)

unfoldable pub edge_faults : Dict ChainNode → List ChainEdge → List Fault
edge_faults m [] = []
edge_faults m (e ∷ es) = edge_fault m e ++ edge_faults m es

-- incoming[key]
unfoldable pub incoming_count : List ChainEdge → String → ℕ
incoming_count [] k = 0
incoming_count (e ∷ es) k =
    let rest = incoming_count es k in if e.to_key == k then rest + 1 else rest

unfoldable pub neutral_successor_count : List ChainEdge → String → ℕ
neutral_successor_count [] k = 0
neutral_successor_count (e ∷ es) k =
    let rest = neutral_successor_count es k in
    if e.from_key == k && is_neutral e.condition then rest + 1 else rest

unfoldable pub neutral_incoming_count : List ChainEdge → String → ℕ
neutral_incoming_count [] k = 0
neutral_incoming_count (e ∷ es) k =
    let rest = neutral_incoming_count es k in
    if e.to_key == k && is_neutral e.condition then rest + 1 else rest
