-- ===== src/Graph/Cycle.antt =====
-- findCycle of internal/engine/validate.go: the depth-first search with three colours. A gray key is
-- one on the stack; `black` lists the keys that are done, the last one first.
use serpent_seek.Prelude.{
  ℕ, zero, suc, String, true, false, Option, none, some, List, [], ◌∷◌, length, ◌==◌, if◌then◌else◌,
}
use serpent_seek.Models.{ChainEdge}
use serpent_seek.Graph.{has_key, adjacent}

pub data Search : Type 0 where
  cycle : List String → Search
  finished : List String → Search

-- how an edge's target looks to the search; `foreign` is no node's key
pub data Color : Type 0 where
  foreign gray white black : Color

unfoldable pub color_of : List String → List String → List String → String → Color
color_of ks stack done v =
    if has_key v ks
    then (if has_key v stack
        then Color.gray
        else if has_key v done
        then Color.black
        else Color.white)
    else Color.foreign

-- the stack from the occurrence of `v` to its top, then `v`; the top of the stack stands first
unfoldable pub close : String → List String → List String → List String
close v [] path = path
close v (k ∷ stack) path = if k == v then k ∷ path else close v stack (k ∷ path)

-- goes on with the finished keys; a cycle ends the search
unfoldable pub and_then : Option Search → (List String → Option Search) → Option Search
and_then none go = none
and_then (some (cycle p)) go = some (cycle p)
and_then (some (finished b)) go = go b

unfoldable pub scan :
    (String → List String → Option Search)
    → List String
    → List String
    → List String
    → List String
    → Option Search
scan visit ks stack [] done = some (finished done)
scan visit ks stack (v ∷ vs) done = elim (color_of ks stack done v) [
  | Color.foreign ↦ scan visit ks stack vs done
  | Color.black ↦ scan visit ks stack vs done
  | Color.gray ↦ some (cycle (close v stack (v ∷ [])))
  | Color.white ↦ and_then (visit v done) (λ b. scan visit ks stack vs b)
]

-- `none` means that the fuel ran out.
unfoldable pub dfs :
    ℕ → List String → List ChainEdge → List String → String → List String → Option Search
dfs zero ks es stack u done = none
dfs (suc fuel) ks es stack u done =
    and_then (scan (dfs fuel ks es (u ∷ stack)) ks (u ∷ stack) (adjacent es u) done)
      (λ b. some (finished (u ∷ b)))

unfoldable pub search_all :
    (String → List String → Option Search) → List String → List String → Option Search
search_all visit [] done = some (finished done)
search_all visit (r ∷ roots) done = elim (has_key r done) [
  | true ↦ search_all visit roots done
  | false ↦ and_then (visit r done) (λ b. search_all visit roots b)
]

-- The keys are those of the nodes, in the order in which Go ranges over them. The depth of the
-- search is at most their number.
unfoldable pub find_cycle : List String → List ChainEdge → Option Search
find_cycle ks es = search_all (dfs (suc (length ks)) ks es []) ks []
