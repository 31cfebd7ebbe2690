-- ===== src/Validate/Sound.antt =====
-- ValidateChain, against a description of valid graphs that does not mention its checks.
use serpent_seek.Prelude.{
  ℕ, ◌<◌, ℤ, String, ◌≡◌, refl, inl, inr, true, Option, some, List, [], ◌∷◌, keys, In, length,
  arith, eq_iff, ap,
}
use mathlib.Core.Option.{some-injective}
use mathlib.Core.Path.{subst, sym, ◌∙◌}
use serpent_seek.Models.{ChainNode, ChainEdge, Chain}
use serpent_seek.Plan.{index_nodes, order_of}
use serpent_seek.Graph.{has_key, reachable_from, accepted}
use serpent_seek.Graph.Walks.{Walk}
use serpent_seek.Graph.Reach.{reachable_from_lem}
use serpent_seek.Graph.Cycle.{Search, cycle, finished, find_cycle}
use serpent_seek.Graph.CycleEnds.{In→has_key}
use serpent_seek.Graph.Ranks.{height, find_cycle_ranks}
use serpent_seek.Engine.FirstEnds.{IsRanked}
use serpent_seek.Validate.{validate, cycle_faults, walk_faults, first_start}
use serpent_seek.Validate.Report.{Validation}
use serpent_seek.Validate.Nodes.{node_index}
use serpent_seek.Validate.Edges.{has_node}
use serpent_seek.Validate.Shape.{starts_of, start_faults, is_entry, unreachable_faults}
use serpent_seek.Validate.Verdict.{
  node_faults-empty, Passed, IsFine, IsDistinct, node_index-eq, has_key-keys, index-has,
  has_node→In, edge_faults-empty, unreachable_faults-empty,
}
use serpent_seek.Validate.Clean.{Clean, validate-Clean}
use serpent_seek.Validate.Starts.{starts_of-has, starts_of-entry}

-- A valid graph: every node has a key and 0 to 10 retries, no two nodes share a key, every edge joins
-- two nodes, all entries have one key, a walk leads from it to every node, and there is no cycle.
pub record IsSound (c : Chain) : Type 0 where
  pub fine : (n : ChainNode) → In n c.nodes → IsFine n
  pub distinct : IsDistinct (order_of c.nodes)
  pub source :
      (e : ChainEdge) → In e c.edges → (n : ChainNode) × In n c.nodes × (n.key ≡ e.from_key)
  pub target : (e : ChainEdge) → In e c.edges → (n : ChainNode) × In n c.nodes × (n.key ≡ e.to_key)
  pub start : ChainNode
  pub entered : In start c.nodes × (is_entry start ≡ true)
  pub single : (n : ChainNode) → In n c.nodes → is_entry n ≡ true → n.key ≡ start.key
  pub reached : (n : ChainNode) → In n c.nodes → Walk c.edges start.key n.key
  pub rank : String → ℕ
  pub ranked : IsRanked c rank

module _ (order : List String → List String) (c : Chain)
    (fair : (ks : List String) (k : String) → has_key k (order ks) ≡ has_key k ks) (search : Search)
    (seen : List String)
    (found : find_cycle (order (keys (node_index c.nodes []))) c.edges ≡ some search)
    (walked : reachable_from (first_start (starts_of c.nodes [])) c.edges (λ _. true) ≡ some seen)
    (clean : Clean order c search seen) where
  passes : Passed c.nodes []
  passes = node_faults-empty 0 c.nodes [] clean.nodes

  index : node_index c.nodes [] ≡ index_nodes c.nodes []
  index = node_index-eq c.nodes [] passes.fine

  abbrev ordered : List String
  ordered = order (keys (node_index c.nodes []))

  ordered-has_key : (n : ChainNode) → In n c.nodes → has_key n.key ordered ≡ true
  ordered-has_key n p =
      fair (keys (node_index c.nodes [])) n.key
      ∙ has_key-keys n.key (node_index c.nodes [])
      ∙ ap (λ m. has_node m n.key) index
      ∙ index-has n c.nodes [] p

  node_of :
      (k : String)
      → has_node (node_index c.nodes []) k ≡ true
      → (n : ChainNode) × In n c.nodes × (n.key ≡ k)
  node_of k h = has_node→In k c.nodes (subst (λ m. has_node m k ≡ true) index h)

  IsRanked-by :
      (s : Search)
      → cycle_faults s ≡ []
      → find_cycle ordered c.edges ≡ some s
      → (rank : String → ℕ) × IsRanked c rank
  unfolding cycle_faults
  IsRanked-by (cycle p) none_found e = absurd (ground arith)
  IsRanked-by (finished b) none_found e = (
    height (length b) b,
    record {
      falls = λ x m listed node to.
          subst (λ k. height (length b) b k < height (length b) b x.from_key) to
            (find_cycle_ranks ordered c.edges b e x listed
              (subst (λ k. has_key k ordered ≡ true) (sym to) (ordered-has_key m node)));
    },
  )

  only_start : (ks : List String) → start_faults ks ≡ [] → (k : String) × (ks ≡ k ∷ [])
  unfolding start_faults
  only_start [] h = absurd (ground arith)
  only_start (k ∷ []) h = (k, refl)
  only_start (k ∷ j ∷ ks) h = absurd (ground arith)

  only_entry :
      (k : String)
      → starts_of c.nodes [] ≡ k ∷ []
      → (n : ChainNode) → In n c.nodes
      → is_entry n ≡ true
      → n.key ≡ k
  only_entry k single n p entry =
      let listed : has_key n.key (k ∷ []) ≡ true =
        subst (λ ks. has_key n.key ks ≡ true) single (starts_of-has n c.nodes [] p entry) in
      ground (arith, eq_iff k n.key)

  entry_node :
      (k : String)
      → starts_of c.nodes [] ≡ k ∷ []
      → (n : ChainNode) × In n c.nodes × (n.key ≡ k) × (is_entry n ≡ true)
  entry_node k single =
      elim (starts_of-entry k c.nodes []
        (subst (λ ks. has_key k ks ≡ true) (sym single) (In→has_key k (k ∷ []) (inl refl)))) [
          | inl wrong ↦ absurd (ground arith)
          | inr found_node ↦ found_node
        ]

  keep_all : (es : List ChainEdge) → accepted (λ _. true) es ≡ es
  unfolding accepted
  keep_all [] = refl
  keep_all (e ∷ es) = ap (λ x. e ∷ x) (keep_all es)

  Walk-to :
      (k : String)
      → starts_of c.nodes [] ≡ k ∷ []
      → (n : ChainNode) → In n c.nodes
      → Walk c.edges k n.key
  unfolding walk_faults first_start
  Walk-to k single n p =
      let no_fault : unreachable_faults seen ordered ≡ [] =
        subst (λ ks. walk_faults order c ks seen ≡ []) single clean.walks in
      let walked' : reachable_from k c.edges (λ _. true) ≡ some seen =
        subst (λ ks. reachable_from (first_start ks) c.edges (λ _. true) ≡ some seen) single
          walked in
      let (r, ends, sound, _) = reachable_from_lem k c.edges (λ _. true) n.key in
      let same : r ≡ seen = some-injective r seen (sym ends ∙ walked') in
      let at_n : has_key n.key r ≡ true =
        subst (λ x. has_key n.key x ≡ true) (sym same)
          (unreachable_faults-empty seen ordered no_fault n.key (ordered-has_key n p)) in
      subst (λ es. Walk es k n.key) (keep_all c.edges) (sound at_n)

  clean-IsSound : IsSound c
  clean-IsSound =
      let (k, single) = only_start (starts_of c.nodes []) clean.starts in
      let (start, listed, at_k, entry) = entry_node k single in
      let (rank, ranked) = IsRanked-by search clean.acyclic found in
      record {
        fine = passes.fine;
        distinct = passes.distinct;
        source = λ e p.
            node_of e.from_key
              (edge_faults-empty (node_index c.nodes []) c.edges clean.edges e p).source;
        target = λ e p.
            node_of e.to_key
              (edge_faults-empty (node_index c.nodes []) c.edges clean.edges e p).target;
        start = start;
        entered = (listed, entry);
        single = λ n p at. only_entry k single n p at ∙ sym at_k;
        reached = λ n p. subst (λ j. Walk c.edges j n.key) (sym at_k) (Walk-to k single n p);
        rank = rank;
        ranked = ranked;
      }

-- A chain that ValidateChain accepts is sound, in whatever order Go ranges over the keys of a map.
pub validate-IsSound :
    (order : List String → List String)
    → ((ks : List String) (k : String) → has_key k (order ks) ≡ has_key k ks)
    → (c : Chain) (known : Option (List String)) (max : Option ℤ) (v : Validation)
    → validate order c known max ≡ some v
    → v.ok ≡ true
    → IsSound c
validate-IsSound order fair c known max v h good =
    let (search, seen, found, walked, clean) = validate-Clean order c known max v h good in
    clean-IsSound order c fair search seen found walked clean
