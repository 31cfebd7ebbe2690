-- ===== src/Graph/Tests.antt =====
-- Runs of the searches.
use serpent_seek.Prelude.{◌<◌, String, ◌≡◌, refl, true, inl, inr, some, List, [], ◌∷◌}
use serpent_seek.Models.{ChainEdge}
use serpent_seek.Graph.{has_key, adjacent, accepted, reachable_from}
use serpent_seek.Graph.Walks.{Walk}
use serpent_seek.Graph.Reach.{reachable_from_lem}
use serpent_seek.Graph.Cycle.{
  cycle, finished, color_of, close, and_then, scan, dfs, search_all, find_cycle,
}
use serpent_seek.Graph.Ranks.{height, find_cycle_ranks}
use serpent_seek.Samples.{edge}

abbrev diamond : List ChainEdge
diamond = edge "s" "a" ∷ edge "s" "b" ∷ edge "a" "j" ∷ edge "b" "j" ∷ []

abbrev ring : List ChainEdge
ring = edge "s" "a" ∷ edge "a" "b" ∷ edge "b" "a" ∷ []

diamond_finished :
    find_cycle ("s" ∷ "a" ∷ "b" ∷ "j" ∷ []) diamond ≡ some (finished ("s" ∷ "b" ∷ "a" ∷ "j" ∷ []))
unfolding adjacent color_of close and_then scan dfs search_all find_cycle
diamond_finished = refl

ring_cycle : find_cycle ("s" ∷ "a" ∷ "b" ∷ []) ring ≡ some (cycle ("a" ∷ "b" ∷ "a" ∷ []))
unfolding adjacent color_of close and_then scan dfs search_all find_cycle
ring_cycle = refl

find_cycle_ranks_example :
    height 4 ("s" ∷ "b" ∷ "a" ∷ "j" ∷ []) "b" < height 4 ("s" ∷ "b" ∷ "a" ∷ "j" ∷ []) "s"
find_cycle_ranks_example =
    find_cycle_ranks ("s" ∷ "a" ∷ "b" ∷ "j" ∷ []) diamond ("s" ∷ "b" ∷ "a" ∷ "j" ∷ [])
      diamond_finished (edge "s" "b") (inr (inl refl)) refl

reachable_from_lem_example :
    (r : List String) × (reachable_from "s" diamond (λ _. true) ≡ some r)
    × (has_key "j" r ≡ true → Walk (accepted (λ _. true) diamond) "s" "j")
    × (Walk (accepted (λ _. true) diamond) "s" "j" → has_key "j" r ≡ true)
reachable_from_lem_example = reachable_from_lem "s" diamond (λ _. true) "j"
