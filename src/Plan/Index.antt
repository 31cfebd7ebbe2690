-- ===== src/Plan/Index.antt =====
-- BuildPlan: the indexes of the nodes and the edges.
use serpent_seek.Prelude.{
  String, ◌≡◌, refl, ◌⊎◌, inl, inr, true, false, some, List, [], ◌∷◌, ◌++◌, Dict, lookup,
  lookup-insert, insert, Bool-cases, eq_of_test, or_else, keep, In, arith, ◌==◌, eq_iff,
  if◌then◌else◌,
}
use mathlib.Core.List.{append_assoc, append-nil}
use serpent_seek.Models.{ChainNode, ChainEdge, Chain}
use serpent_seek.Plan.{Plan, ok, index_nodes, index_edges, order_of, entry, build_plan, out_edges}

abbrev pub leaving : String → List ChainEdge → List ChainEdge
leaving k = keep (λ e. e.from_key == k)

pub lookup-index_edges :
    (k : String) (es : List ChainEdge) (m : Dict (List ChainEdge))
    → or_else (lookup k (index_edges es m)) [] ≡ or_else (lookup k m) [] ++ leaving k es
unfolding index_edges
lookup-index_edges k [] m = sym_nil
  where
    sym_nil : or_else (lookup k m) [] ≡ or_else (lookup k m) [] ++ []
    sym_nil = simp append-nil
lookup-index_edges k (e ∷ es) m =
    rw (lookup-index_edges k es (insert e.from_key (or_else (lookup e.from_key m) [] ++ e ∷ []) m))
      (rw lookup-insert (grouped (Bool-cases (e.from_key == k))))
  where
    here :
        (j : String)
        → j ≡ k
        → (or_else (lookup j m) [] ++ e ∷ []) ++ leaving k es
          ≡ or_else (lookup k m) [] ++ (e ∷ leaving k es)
    here j h = rw h (append_assoc (or_else (lookup k m) []) (e ∷ []) (leaving k es))

    grouped :
        (e.from_key == k ≡ true) ⊎ (e.from_key == k ≡ false)
        → or_else
              (if e.from_key == k
                then some (or_else (lookup e.from_key m) [] ++ e ∷ [])
                else lookup k m)
              []
            ++ leaving k es
          ≡ or_else (lookup k m) [] ++ leaving k (e ∷ es)
    grouped (inl h) = rw h (here e.from_key (eq_of_test e.from_key k h))
    grouped (inr h) = rw h refl

-- A key that is found leads to a node of the list with that key, or to what was there before.
pub lookup-index_nodes :
    (k : String) (n : ChainNode) (ns : List ChainNode) (m : Dict ChainNode)
    → lookup k (index_nodes ns m) ≡ some n
    → (In n ns × (n.key ≡ k)) ⊎ (lookup k m ≡ some n)
unfolding index_nodes
lookup-index_nodes k n [] m h = inr h
lookup-index_nodes k n (x ∷ ns) m h = ground (
  arith,
  lookup-index_nodes k n ns (insert x.key x m) h,
  lookup-insert x.key k x m,
  eq_iff x.key k,
)

pub record IsIndexed (c : Chain) (p : Plan) : Type 0 where
  pub chain : p.chain ≡ c
  pub nodes : p.nodes ≡ index_nodes c.nodes []
  pub out : p.out ≡ index_edges c.edges []
  pub order : p.order ≡ order_of c.nodes
  pub start : entry p.order p.nodes ≡ some p.start

pub build_plan-IsIndexed : (c : Chain) (p : Plan) → build_plan c ≡ ok p → IsIndexed c p
unfolding build_plan
build_plan-IsIndexed c p h = ground arith

pub out_edges-eq-leaving :
    (c : Chain) (p : Plan) (k : String) → build_plan c ≡ ok p → out_edges p k ≡ leaving k c.edges
unfolding out_edges lookup
out_edges-eq-leaving c p k h = rw (build_plan-IsIndexed c p h).out (lookup-index_edges k c.edges [])

pub node-lookup :
    (c : Chain) (p : Plan) (k : String) (n : ChainNode)
    → build_plan c ≡ ok p
    → lookup k p.nodes ≡ some n
    → In n c.nodes × (n.key ≡ k)
unfolding lookup
node-lookup c p k n h e =
    ground (arith, build_plan-IsIndexed c p h, lookup-index_nodes k n c.nodes [])
