-- ===== src/Plan/Entry.antt =====
-- BuildPlan: the block at which a walk begins.
use mathlib.Core.Path.{subst}
use serpent_seek.Prelude.{
  ◌∙◌, ap, String, ◌≡◌, refl, ◌⊎◌, inl, inr, Bool, true, false, none, some, List, [], ◌∷◌, lookup,
  Dict, In, arith, Option-cases, Bool-cases,
}
use mathlib.Core.Option.{none-ne-some, some-injective}
use serpent_seek.Models.{ChainNode, Chain}
use serpent_seek.Plan.{
  Plan, ok, err, no_start_node, build_plan, index_nodes, order_of, first_node, entry, is_kind_start,
}
use serpent_seek.Plan.Index.{node-lookup, build_plan-IsIndexed, lookup-index_nodes}

pub first_node-some :
    (test : ChainNode → Bool) (n : ChainNode) (ks : List String) (m : Dict ChainNode)
    → first_node test ks m ≡ some n
    → (k : String) × In k ks × (lookup k m ≡ some n) × (test n ≡ true)
unfolding first_node
first_node-some test n [] m h = cc
first_node-some test n (k ∷ ks) m h = elim (Option-cases (lookup k m)) [
  | inl gone ↦ later (first_node-some test n ks m (rw (gone, first_node) at h))
  | inr (x, found) ↦ elim (Bool-cases (test x)) [
    | inl passes ↦
        let same : some x ≡ some n = rw (found, passes, first_node) at h in
        (k, inl refl, found ∙ same, rw (some-injective x n same) at passes)
    | inr fails ↦ later (first_node-some test n ks m (rw (found, fails, first_node) at h))
  ]
]
  where
    later :
        (j : String) × In j ks × (lookup j m ≡ some n) × (test n ≡ true)
        → (j : String) × In j (k ∷ ks) × (lookup j m ≡ some n) × (test n ≡ true)
    later (j, listed, found, passes) = (j, inr listed, found, passes)

pub first_node-none :
    (test : ChainNode → Bool) (n : ChainNode) (k : String) (ks : List String) (m : Dict ChainNode)
    → first_node test ks m ≡ none
    → In k ks
    → lookup k m ≡ some n
    → test n ≡ false
unfolding first_node
first_node-none test n k [] m h i l = absurd i
first_node-none test n k (j ∷ ks) m h i l = ground (arith, first_node-none test n k ks m)

pub In-order_of : (n : ChainNode) (ns : List ChainNode) → In n ns → In n.key (order_of ns)
unfolding order_of
In-order_of n [] h = h
In-order_of n (x ∷ ns) (inl e) = inl (ap (λ y. y.key) e)
In-order_of n (x ∷ ns) (inr h) = inr (In-order_of n ns h)

-- a key of the index stands in the order
indexed-In :
    (c : Chain) (k : String) (n : ChainNode)
    → lookup k (index_nodes c.nodes []) ≡ some n
    → In k (order_of c.nodes)
unfolding lookup
indexed-In c k n h = elim (lookup-index_nodes k n c.nodes [] h) [
  | inl (listed, same) ↦ subst (λ j. In j (order_of c.nodes)) same (In-order_of n c.nodes listed)
  | inr e ↦ absurd (none-ne-some n e)
]

abbrev Held : Chain → String → ChainNode → Type 0
Held c k n = lookup k (index_nodes c.nodes []) ≡ some n

none_passes :
    (test : ChainNode → Bool) (c : Chain) (k : String) (n : ChainNode)
    → first_node test (order_of c.nodes) (index_nodes c.nodes []) ≡ none
    → Held c k n
    → test n ≡ false
none_passes test c k n none_left held =
    first_node-none test n k (order_of c.nodes) _ none_left (indexed-In c k n held) held

-- A built plan starts at a node of the chain: a start block, or, where no node that the plan holds
-- is a start block, a node with the legacy flag.
build_plan-start :
    (c : Chain) (p : Plan) (k : String) (n : ChainNode)
    → build_plan c ≡ ok p
    → lookup k p.nodes ≡ some n
    → In p.start c.nodes
      × ((is_kind_start p.start ≡ true) ⊎ (is_kind_start n ≡ false) × (p.start.is_start ≡ true))
unfolding entry
build_plan-start c p k n built held =
    elim (Option-cases (first_node is_kind_start p.order p.nodes)) [
      | inl no_block ↦
          let (j, _, at_j, flag) =
            first_node-some (λ x. x.is_start) p.start p.order p.nodes
              (rw (no_block, entry) at (build_plan-IsIndexed c p built).start) in
          ((node-lookup c p j p.start built at_j).0, inr (skipped no_block, flag))
      | inr (x, found) ↦
          let same : some x ≡ some p.start =
            rw (found, entry) at (build_plan-IsIndexed c p built).start in
          let (j, _, at_j, block) =
            first_node-some is_kind_start p.start p.order p.nodes (found ∙ same) in
          ((node-lookup c p j p.start built at_j).0, inl block)
    ]
  where
    skipped : first_node is_kind_start p.order p.nodes ≡ none → is_kind_start n ≡ false
    skipped e =
        let indexed = build_plan-IsIndexed c p built in
        none_passes is_kind_start c k n (rw (indexed.order, indexed.nodes) at e)
          (rw indexed.nodes at held)

-- Without a start, no node that the index holds is a start block or has the legacy flag.
pub build_plan-no_start :
    (c : Chain) (k : String) (n : ChainNode)
    → build_plan c ≡ err no_start_node
    → lookup k (index_nodes c.nodes []) ≡ some n
    → (is_kind_start n ≡ false) × (n.is_start ≡ false)
unfolding build_plan entry
build_plan-no_start c k n failed held = (
  none_passes is_kind_start c k n (ground arith) held,
  none_passes (λ x. x.is_start) c k n (ground arith) held,
)

-- The start of a built plan is a node of the chain.
pub start-In : (c : Chain) (p : Plan) → build_plan c ≡ ok p → In p.start c.nodes
unfolding entry
start-In c p built = elim (Option-cases (first_node is_kind_start p.order p.nodes)) [
  | inl no_block ↦
      let (j, _, at_j, _) =
        first_node-some (λ x. x.is_start) p.start p.order p.nodes
          (rw (no_block, entry) at (build_plan-IsIndexed c p built).start) in
      (node-lookup c p j p.start built at_j).0
  | inr (x, found) ↦
      let same : some x ≡ some p.start =
        rw (found, entry) at (build_plan-IsIndexed c p built).start in
      let (j, _, at_j, _) = first_node-some is_kind_start p.start p.order p.nodes (found ∙ same) in
      (node-lookup c p j p.start built at_j).0
]
