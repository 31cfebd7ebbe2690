-- ===== src/Validate/Clean.antt =====
-- ValidateChain: a run without errors, check by check.
use serpent_seek.Prelude.{
  ℤ, String, ◌≡◌, refl, ◌⊎◌, inl, inr, true, Option, some, List, [], ◌∷◌, ◌++◌, keys, eqb, arith,
  ◌==◌,
}
use mathlib.Core.Option.{some-injective}
use mathlib.Core.Path.{subst, sym, ◌∙◌}
use serpent_seek.Models.{Chain}
use serpent_seek.Plan.{is_neutral}
use serpent_seek.Graph.{reachable_from}
use serpent_seek.Graph.Fuel.{reachable_from_returns}
use serpent_seek.Graph.Cycle.{Search, find_cycle}
use serpent_seek.Graph.CycleEnds.{find_cycle-Returns}
use serpent_seek.Validate.{
  validate, validate_graph, walk_notices, conclude, all_faults, mode_word, mode_faults,
  cycle_faults, walk_faults, first_start,
}
use serpent_seek.Validate.Report.{Fault, Notice, Validation, fault_if, no_provider_block, no_nodes}
use serpent_seek.Validate.Nodes.{node_index, node_faults, node_notices, provider_count}
use serpent_seek.Validate.Edges.{edge_faults}
use serpent_seek.Validate.Shape.{join_faults, starts_of, start_faults, neutral_faults}
use serpent_seek.Validate.Verdict.{append-empty}

conclude-ok : (fs : List Fault) (ws : List Notice) → (conclude fs ws).ok ≡ true → fs ≡ []
unfolding conclude
conclude-ok [] ws h = refl
conclude-ok (f ∷ fs) ws h = ground arith

module _ (order : List String → List String) (c : Chain) where
  -- the parts of `all_faults` that are empty
  pub record Clean (search : Search) (seen : List String) : Type 0 where
    pub nodes : node_faults 0 c.nodes [] ≡ []
    pub edges : edge_faults (node_index c.nodes []) c.edges ≡ []
    pub starts : start_faults (starts_of c.nodes []) ≡ []
    pub acyclic : cycle_faults search ≡ []
    pub walks : walk_faults order c (starts_of c.nodes []) seen ≡ []

  all_faults-Clean :
      (search : Search) (seen : List String)
      → all_faults order c search seen ≡ []
      → Clean search seen
  unfolding all_faults
  all_faults-Clean search seen h =
      let a = mode_faults c ++ node_faults 0 c.nodes [] in
      let b = a ++ fault_if (eqb (provider_count c.nodes) 0) no_provider_block in
      let d = b ++ edge_faults (node_index c.nodes []) c.edges in
      let e = d ++ join_faults c.edges c.nodes in
      let f = e ++ start_faults (starts_of c.nodes []) in
      let g =
        f ++ neutral_faults (mode_word c == "full_chain") c.edges (starts_of c.nodes []) c.nodes in
      let (h₁, walks) =
        append-empty (g ++ cycle_faults search) (walk_faults order c (starts_of c.nodes []) seen)
          h in
      let (h₂, acyclic) = append-empty g (cycle_faults search) h₁ in
      let (h₃, _) =
        append-empty f
          (neutral_faults (mode_word c == "full_chain") c.edges (starts_of c.nodes []) c.nodes)
          h₂ in
      let (h₄, starts) = append-empty e (start_faults (starts_of c.nodes [])) h₃ in
      let (h₅, _) = append-empty d (join_faults c.edges c.nodes) h₄ in
      let (h₆, edges) = append-empty b (edge_faults (node_index c.nodes []) c.edges) h₅ in
      let (h₇, _) =
        append-empty a (fault_if (eqb (provider_count c.nodes) 0) no_provider_block) h₆ in
      let (_, nodes) = append-empty (mode_faults c) (node_faults 0 c.nodes []) h₇ in
      record { nodes = nodes; edges = edges; starts = starts; acyclic = acyclic; walks = walks }

  validate-cases :
      (known : Option (List String)) (max : Option ℤ)
      → (validate order c known max ≡ some (conclude (no_nodes ∷ []) []))
        ⊎ (validate order c known max ≡ validate_graph order c known max)
  unfolding validate
  validate-cases known max = ground arith

  -- ValidateChain returns a verdict for every chain.
  pub validate_returns :
      (known : Option (List String)) (max : Option ℤ)
      → (v : Validation) × (validate order c known max ≡ some v)
  unfolding validate_graph
  validate_returns known max = elim (validate-cases known max) [
    | inl blank ↦ (conclude (no_nodes ∷ []) [], blank)
    | inr graph ↦
        let (search, found) = find_cycle-Returns (order (keys (node_index c.nodes []))) c.edges in
        let (seen, walked) =
          reachable_from_returns (first_start (starts_of c.nodes [])) c.edges (λ _. true) in
        let (next_seen, walked_next) =
          reachable_from_returns (first_start (starts_of c.nodes [])) c.edges is_neutral in
        let notices =
          node_notices known c.nodes
          ++ walk_notices order c max (starts_of c.nodes []) seen next_seen in
        let ends : validate_graph order c known max
            ≡ some (conclude (all_faults order c search seen) notices) =
          simp (found, walked, walked_next, validate_graph) in
        (conclude (all_faults order c search seen) notices, graph ∙ ends)
  ]

  pub validate-Clean :
      (known : Option (List String)) (max : Option ℤ) (v : Validation)
      → validate order c known max ≡ some v
      → v.ok ≡ true
      → (search : Search) × (seen : List String) × (find_cycle
            (order (keys (node_index c.nodes [])))
            c.edges
          ≡ some search)
        × (reachable_from (first_start (starts_of c.nodes [])) c.edges (λ _. true) ≡ some seen)
        × Clean search seen
  unfolding validate_graph
  validate-Clean known max v h good =
      let (search, found) = find_cycle-Returns (order (keys (node_index c.nodes []))) c.edges in
      let (seen, walked) =
        reachable_from_returns (first_start (starts_of c.nodes [])) c.edges (λ _. true) in
      let (next_seen, walked_next) =
        reachable_from_returns (first_start (starts_of c.nodes [])) c.edges is_neutral in
      let notices =
        node_notices known c.nodes
        ++ walk_notices order c max (starts_of c.nodes []) seen next_seen in
      let graph : validate_graph order c known max
          ≡ some (conclude (all_faults order c search seen) notices) =
        simp (found, walked, walked_next, validate_graph) in
      let clean : all_faults order c search seen ≡ [] = elim (validate-cases known max) [
        | inl blank ↦ absurd (faulty (sym blank ∙ h))
        | inr same ↦ passed (all_faults order c search seen) notices (sym graph ∙ sym same ∙ h)
      ] in
      (search, seen, found, walked, all_faults-Clean search seen clean)
    where
      faulty : some (conclude (no_nodes ∷ []) []) ≡ some v → ⊥
      faulty e = ground (arith, conclude-ok (no_nodes ∷ []) [])

      passed : (fs : List Fault) (ws : List Notice) → some (conclude fs ws) ≡ some v → fs ≡ []
      passed fs ws e =
          conclude-ok fs ws
            (subst (λ x. x.ok ≡ true) (sym (some-injective (conclude fs ws) v e)) good)
