-- ===== src/Graph.antt =====
-- The breadth-first searches of the engine: `reachableFrom` of validate.go, and the same loop in
-- `runFullChain`.
pub mod Walks
pub mod Fuel
pub mod Missing
pub mod Reach
pub mod Cycle
pub mod CycleEnds
pub mod Finished
pub mod Ranks
pub mod Closed
mod Tests
use serpent_seek.Prelude.{
  ℕ, zero, suc, ◌+◌, String, Bool, true, false, Option, none, some, List, [], ◌∷◌, ◌++◌, length,
  keep, any, ◌==◌, if◌then◌else◌,
}
use serpent_seek.Models.{ChainEdge}

abbrev pub has_key : String → List String → Bool
has_key k = any (λ j. j == k)

-- adj[key], over the edges that are accepted
unfoldable pub adjacent : List ChainEdge → String → List String
adjacent [] k = []
adjacent (e ∷ es) k = let rest = adjacent es k in if e.from_key == k then e.to_key ∷ rest else rest

-- `none` means that the fuel ran out.
unfoldable pub reach_loop : ℕ → List ChainEdge → List String → List String → Option (List String)
reach_loop zero es queue seen = none
reach_loop (suc fuel) es [] seen = some seen
reach_loop (suc fuel) es (cur ∷ queue) seen = elim (has_key cur seen) [
  | true ↦ reach_loop fuel es queue seen
  | false ↦ reach_loop fuel es (queue ++ adjacent es cur) (cur ∷ seen)
]

unfoldable pub accepted : (String → Bool) → List ChainEdge → List ChainEdge
accepted accept = keep (λ e. accept e.condition)

-- The keys reached from `start` along accepted edges, with fuel for one round per edge and two more.
unfoldable pub reachable_from : String → List ChainEdge → (String → Bool) → Option (List String)
unfolding accepted
reachable_from start edges accept =
    let es = accepted accept edges in reach_loop (length es + 2) es (start ∷ []) []
