-- ===== src/Validate/Verdict.antt =====
-- ValidateChain: the single checks of nodes, edges and reachability.
use serpent_seek.Prelude.{
  ℕ, ◌+◌, ◌≤◌, String, ◌≡◌, refl, inl, inr, Bool, true, false, not, none, some, List, [], ◌∷◌, ◌++◌,
  Dict, lookup, insert, keys, In, to_ℕ, is_negative, arith, lookup-insert, lookup-insert_self,
  Bool-cases, Option-cases, ◌==◌, eq_iff, eq_self,
}
use mathlib.Core.Path.{subst, sym, ◌∙◌}
use serpent_seek.Models.{ChainNode, ChainEdge}
use serpent_seek.Plan.{index_nodes, order_of}
use serpent_seek.Plan.Index.{lookup-index_nodes}
use serpent_seek.Graph.{has_key}
use serpent_seek.Validate.Report.{Fault, fault_if, empty_key, unreachable}
use serpent_seek.Validate.Nodes.{
  node_index, node_faults, keyed_faults, key_faults, kind_faults, node_mode_faults, timeout_faults,
  policy_faults, retry_faults, is_empty_key,
}
use serpent_seek.Validate.Edges.{has_node, edge_fault, edge_faults, is_known_condition}
use serpent_seek.Validate.Shape.{unreachable_faults}

pub append-empty {ℓ} : {A : Type ℓ} → (xs ys : List A) → xs ++ ys ≡ [] → (xs ≡ []) × (ys ≡ [])
append-empty [] ys h = (refl, h)
append-empty (x ∷ xs) ys h = ground arith

no_key : {n : ChainNode} → none ≡ some n → ⊥
no_key e = ground arith

pub fault_if-empty : (b : Bool) (f : Fault) → fault_if b f ≡ [] → b ≡ false
unfolding fault_if
fault_if-empty b f h = ground arith

-- what the checks of a node establish: a key, and retries from 0 to 10
pub record IsFine (n : ChainNode) : Type 0 where
  pub keyed : is_empty_key n ≡ false
  pub retries : (is_negative n.retries ≡ false) × (to_ℕ n.retries ≤ 10)

retry_faults-empty :
    (n : ChainNode) → retry_faults n ≡ [] → (is_negative n.retries ≡ false) × (to_ℕ n.retries ≤ 10)
unfolding retry_faults fault_if
retry_faults-empty n h = ground arith

key_faults-empty :
    (n : ChainNode) (seen : Dict ChainNode) → key_faults n seen ≡ [] → lookup n.key seen ≡ none
unfolding key_faults
key_faults-empty n seen h = ground arith

keyed_faults-empty :
    (n : ChainNode) (seen : Dict ChainNode)
    → keyed_faults n seen ≡ []
    → (lookup n.key seen ≡ none) × (retry_faults n ≡ [])
unfolding keyed_faults
keyed_faults-empty n seen h =
    let to_kinds = key_faults n seen ++ kind_faults n in
    let to_modes = to_kinds ++ node_mode_faults n in
    let to_times = to_modes ++ timeout_faults n in
    let (h₁, _) = append-empty (to_times ++ retry_faults n) (policy_faults n) h in
    let (h₂, retries) = append-empty to_times (retry_faults n) h₁ in
    let (h₃, _) = append-empty to_modes (timeout_faults n) h₂ in
    let (h₄, _) = append-empty to_kinds (node_mode_faults n) h₃ in
    (key_faults-empty n seen (append-empty (key_faults n seen) (kind_faults n) h₄).0, retries)

-- no key stands twice
abbrev pub IsDistinct : List String → Type 0
IsDistinct [] = Unit
IsDistinct (k ∷ ks) = (has_key k ks ≡ false) × IsDistinct ks

-- the nodes pass, their keys differ from each other and from those that were seen
pub record Passed (ns : List ChainNode) (seen : Dict ChainNode) : Type 0 where
  pub fine : (n : ChainNode) → In n ns → IsFine n
  pub fresh : (k : String) → has_key k (order_of ns) ≡ true → lookup k seen ≡ none
  pub distinct : IsDistinct (order_of ns)

pub node_faults-empty :
    (i : ℕ) (ns : List ChainNode) (seen : Dict ChainNode)
    → node_faults i ns seen ≡ []
    → Passed ns seen
unfolding node_faults order_of
node_faults-empty i [] seen h = record {
  fine = λ n p. absurd p;
  fresh = λ k p. ground arith;
  distinct = tt;
}
node_faults-empty i (n ∷ ns) seen h = elim (Bool-cases (is_empty_key n)) [
  | inl blank ↦
      let h' : empty_key i ∷ node_faults (i + 1) ns seen ≡ [] = rw (blank, node_faults) at h in
      absurd (ground arith)
  | inr keyed ↦
      let h' : keyed_faults n seen ++ node_faults (i + 1) ns (insert n.key n seen) ≡ [] =
        rw (keyed, node_faults) at h in
      let (here, later) = append-empty _ _ h' in
      let (new, retries) = keyed_faults-empty n seen here in
      let rest = node_faults-empty (i + 1) ns (insert n.key n seen) later in
      passed-cons n ns seen (record { keyed = keyed; retries = retry_faults-empty n retries }) new
        rest
]
  where
    once :
        (n : ChainNode) (ns : List ChainNode) (seen : Dict ChainNode)
        → ((k : String) → has_key k (order_of ns) ≡ true → lookup k (insert n.key n seen) ≡ none)
        → has_key n.key (order_of ns) ≡ false
    once n ns seen fresh = elim (Bool-cases (has_key n.key (order_of ns))) [
      | inl again ↦
          let gone : lookup n.key (insert n.key n seen) ≡ none = fresh n.key again in
          absurd (no_key (sym gone ∙ lookup-insert_self n.key n seen))
      | inr new ↦ new
    ]

    passed-cons :
        (n : ChainNode) (ns : List ChainNode) (seen : Dict ChainNode)
        → IsFine n
        → lookup n.key seen ≡ none
        → Passed ns (insert n.key n seen)
        → Passed (n ∷ ns) seen
    passed-cons n ns seen fine new rest = record {
      fine = λ m p. elim p [ inl e ↦ subst IsFine (sym e) fine | inr q ↦ rest.fine m q ];
      fresh = λ k p. ground (arith, rest.fresh k, lookup-insert n.key k n seen, eq_iff n.key k);
      distinct = (once n ns seen rest.fresh, rest.distinct);
    }

-- where no key is blank, the index of the checks is that of the plan
pub node_index-eq :
    (ns : List ChainNode) (m : Dict ChainNode)
    → ((n : ChainNode) → In n ns → IsFine n)
    → node_index ns m ≡ index_nodes ns m
unfolding node_index index_nodes
node_index-eq [] m fine = refl
node_index-eq (n ∷ ns) m fine =
    rw ((fine n (inl refl)).keyed, node_index)
      (node_index-eq ns (insert n.key n m) (λ x p. fine x (inr p)))

pub has_key-keys : (k : String) (m : Dict ChainNode) → has_key k (keys m) ≡ has_node m k
unfolding keys has_node lookup
has_key-keys k [] = refl
has_key-keys k ((j, n) ∷ m) = ground (arith, has_key-keys k m)

index-grows :
    (k : String) (ns : List ChainNode) (m : Dict ChainNode)
    → has_node m k ≡ true
    → has_node (index_nodes ns m) k ≡ true
unfolding index_nodes has_node
index-grows k [] m h = h
index-grows k (n ∷ ns) m h =
    index-grows k ns (insert n.key n m) (ground (arith, lookup-insert n.key k n m))

pub index-has :
    (n : ChainNode) (ns : List ChainNode) (m : Dict ChainNode)
    → In n ns
    → has_node (index_nodes ns m) n.key ≡ true
unfolding index_nodes
index-has n [] m h = absurd h
index-has n (x ∷ ns) m (inl e) =
    subst (λ y. has_node (index_nodes ns (insert x.key x m)) y.key ≡ true) (sym e)
      (index-grows x.key ns (insert x.key x m)
        (unfold has_node in ground (arith, lookup-insert x.key x.key x m, eq_self x.key)))
index-has n (x ∷ ns) m (inr p) = index-has n ns (insert x.key x m) p

pub has_node→In :
    (k : String) (ns : List ChainNode)
    → has_node (index_nodes ns []) k ≡ true
    → (n : ChainNode) × In n ns × (n.key ≡ k)
unfolding has_node lookup
has_node→In k ns h = elim (Option-cases (lookup k (index_nodes ns []))) [
  | inl gone ↦ absurd (ground arith)
  | inr (n, found) ↦ elim (lookup-index_nodes k n ns [] found) [
    | inl (listed, at_k) ↦ (n, listed, at_k)
    | inr wrong ↦ absurd (no_key wrong)
  ]
]

-- what the checks of an edge establish: both ends are nodes, and the condition is known
pub record IsJoined (m : Dict ChainNode) (e : ChainEdge) : Type 0 where
  pub source : has_node m e.from_key ≡ true
  pub target : has_node m e.to_key ≡ true
  pub condition : is_known_condition e.condition ≡ true

edge_fault-empty : (m : Dict ChainNode) (e : ChainEdge) → edge_fault m e ≡ [] → IsJoined m e
unfolding edge_fault fault_if
edge_fault-empty m e h = record {
  source = ground arith;
  target = ground arith;
  condition = ground arith;
}

pub edge_faults-empty :
    (m : Dict ChainNode) (es : List ChainEdge)
    → edge_faults m es ≡ []
    → (e : ChainEdge) → In e es
    → IsJoined m e
unfolding edge_faults
edge_faults-empty m [] h e p = absurd p
edge_faults-empty m (x ∷ es) h e p =
    let (here, later) = append-empty (edge_fault m x) (edge_faults m es) h in
    elim p [
      | inl same ↦ subst (IsJoined m) (sym same) (edge_fault-empty m x here)
      | inr q ↦ edge_faults-empty m es later e q
    ]

pub unreachable_faults-empty :
    (seen ks : List String)
    → unreachable_faults seen ks ≡ []
    → (k : String) → has_key k ks ≡ true
    → has_key k seen ≡ true
unfolding unreachable_faults fault_if
unreachable_faults-empty seen [] h k p = absurd (ground arith)
unreachable_faults-empty seen (j ∷ ks) h k p =
    let (here, later) =
      append-empty (fault_if (not (has_key j seen)) (unreachable j)) (unreachable_faults seen ks)
        h in
    let rest = unreachable_faults-empty seen ks later k in
    let at_j : has_key j seen ≡ true = ground (arith, here) in
    elim (Bool-cases (j == k)) [
      | inl same ↦ subst (λ x. has_key x seen ≡ true) ((eq_iff j k).0 same) at_j
      | inr other ↦ rest (ground arith)
    ]
