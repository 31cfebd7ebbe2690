-- ===== src/Graph/Walks.antt =====
-- Walks along edges, as a relation.
use serpent_seek.Prelude.{String, ◌≡◌, List, In}
use serpent_seek.Models.{ChainEdge}

-- `k` can be reached from `start` along the edges.
pub data Walk (es : List ChainEdge) (start : String) : String → Type 0 where
  here : Walk es start start
  step :
      {j k : String} (e : ChainEdge)
      → Walk es start j
      → In e es
      → e.from_key ≡ j
      → e.to_key ≡ k
      → Walk es start k
