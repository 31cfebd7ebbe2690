-- ===== src/Validate/Runs.antt =====
-- ValidateChain, BuildPlan and run together: the life of an accepted chain.
use serpent_seek.Prelude.{
  ℕ, ◌+◌, ◌<◌, ℤ, String, ◌≡◌, refl, ◌⊎◌, inl, inr, true, false, Option, some, List, [], ◌∷◌,
  length, In, lookup, arith, Bool-cases, List-cases, Option-cases, ap,
}
use mathlib.Core.Path.{subst, sym, ◌∙◌}
use serpent_seek.Models.{ChainNode, Chain, ChainMode}
use serpent_seek.Plan
use serpent_seek.Plan.{
  Plan, Build, ok, err, PlanError, empty_chain, no_start_node, build_plan, has_start_block,
  is_kind_start, index_nodes, index_edges, order_of, entry,
}
use serpent_seek.Plan.Entry.{build_plan-no_start, In-order_of}
use serpent_seek.Plan.Index.{lookup-index_nodes, build_plan-IsIndexed}
use serpent_seek.Graph.{has_key}
use serpent_seek.Graph.CycleEnds.{In→has_key}
use serpent_seek.Engine.State.{Context, World}
use serpent_seek.Engine.Finish.{Output}
use serpent_seek.Engine.Budget.{IsAccounted}
use serpent_seek.Engine.Outputs.{IsWellFormed}
use serpent_seek.Engine.Run.{run}
use serpent_seek.Engine.FirstEnds.{run_first_success_returns}
use serpent_seek.Engine.LegacyEnds.{run_full_chain_legacy_returns}
use serpent_seek.Engine.FullEnds.{run_full_chain_returns}
use serpent_seek.Validate.{validate}
use serpent_seek.Validate.Report.{Validation}
use serpent_seek.Validate.Edges.{has_node}
use serpent_seek.Validate.Shape.{is_entry}
use serpent_seek.Validate.Verdict.{IsDistinct, index-has}
use serpent_seek.Validate.Sound.{IsSound, validate-IsSound}

-- a key that stands once is no other node's
twice :
    (m x : ChainNode) (ns : List ChainNode)
    → has_key x.key (order_of ns) ≡ false
    → In m ns
    → m.key ≡ x.key
    → ⊥
twice m x ns once p e =
    let there : has_key x.key (order_of ns) ≡ true =
      subst (λ k. has_key k (order_of ns) ≡ true) e
        (In→has_key m.key (order_of ns) (In-order_of m ns p)) in
    ground arith

-- nodes of one key are one node
same_node :
    (n m : ChainNode) (ns : List ChainNode)
    → IsDistinct (order_of ns)
    → In n ns
    → In m ns
    → n.key ≡ m.key
    → n ≡ m
unfolding order_of
same_node n m [] h p q e = absurd p
same_node n m (x ∷ ns) (once, h) (inl p) (inl q) e = p ∙ sym q
same_node n m (x ∷ ns) (once, h) (inl p) (inr q) e =
    absurd (twice m x ns once q (sym e ∙ ap (λ y. y.key) p))
same_node n m (x ∷ ns) (once, h) (inr p) (inl q) e =
    absurd (twice n x ns once p (e ∙ ap (λ y. y.key) q))
same_node n m (x ∷ ns) (once, h) (inr p) (inr q) e = same_node n m ns h p q e

start_found :
    (c : Chain) (s : IsSound c) → lookup s.start.key (index_nodes c.nodes []) ≡ some s.start
unfolding has_node lookup
start_found c s = elim (Option-cases (lookup s.start.key (index_nodes c.nodes []))) [
  | inl gone ↦
      let there : has_node (index_nodes c.nodes []) s.start.key ≡ true =
        index-has s.start c.nodes [] s.entered.0 in
      absurd (ground arith)
  | inr (n, found) ↦ elim (lookup-index_nodes s.start.key n c.nodes [] found) [
    | inl (listed, at_key) ↦
        found ∙ ap (λ x. some x) (same_node n s.start c.nodes s.distinct listed s.entered.0 at_key)
    | inr wrong ↦ absurd (ground arith)
  ]
]

build_plan-cases :
    (c : Chain)
    → ((p : Plan) × (build_plan c ≡ ok p)) ⊎ (c.nodes ≡ []) ⊎ (build_plan c ≡ err no_start_node)
unfolding build_plan
build_plan-cases c = elim (List-cases c.nodes) [
  | inl empty ↦ inr (inl empty)
  | inr (x, xs, nodes) ↦ elim (Option-cases (entry (order_of c.nodes) (index_nodes c.nodes []))) [
    | inl no_entry ↦ inr (inr (ground arith))
    | inr (n, entered) ↦
        let p : Plan = record {
          chain = c;
          nodes = index_nodes c.nodes [];
          out = index_edges c.edges [];
          order = order_of c.nodes;
          start = n;
        } in
        let built : build_plan c ≡ ok p = ground arith in inl (p, built)
  ]
]

-- A sound chain builds.
pub sound_builds : (c : Chain) → IsSound c → (p : Plan) × (build_plan c ≡ ok p)
unfolding is_entry
sound_builds c s = elim (build_plan-cases c) [
  | inl (p, built) ↦ (p, built)
  | inr (inl empty) ↦ absurd (subst (In s.start) empty s.entered.0)
  | inr (inr failed) ↦
      let (no_block, no_flag) =
        build_plan-no_start c s.start.key s.start failed (start_found c s) in
      let entry : is_entry s.start ≡ true = s.entered.1 in absurd (ground arith)
]

-- The walk over the plan of a sound chain returns, in every mode.
sound_runs :
    (chain : Chain) (s : IsSound chain) (c : Context)
    → build_plan chain ≡ ok c.plan
    → (sched : List String → List String) (fuel : ℕ) (w : World)
    → s.rank c.plan.start.key + 1 + length c.plan.order < fuel
    → IsAccounted c w
    → (out : Output) × (run fuel c sched w ≡ some out) × IsWellFormed c out
unfolding run
sound_runs chain s c built sched fuel w enough v = elim (Mode-cases (Plan.mode c.plan)) [
  | inr first ↦
      rw (first, run)
        (run_first_success_returns chain s.rank s.ranked c built (has_start_block c.plan) fuel w
          (omega (arith, enough)) v)
  | inl full ↦
      rw (full, run)
        (elim (Bool-cases (has_start_block c.plan)) [
          | inl block ↦
              rw (block, run) (run_full_chain_returns c sched fuel w (omega (arith, enough)) v)
          | inr legacy ↦
              rw (legacy, run)
                (run_full_chain_legacy_returns c chain built fuel w
                  (omega (
                    arith,
                    enough,
                    ap (λ ks. length ks) (build_plan-IsIndexed chain c.plan built).order,
                  ))
                  v)
        ])
]
  where
    Mode-cases : (m : ChainMode) → (m ≡ ChainMode.full_chain) ⊎ (m ≡ ChainMode.first_success)
    Mode-cases ChainMode.full_chain = inl refl
    Mode-cases ChainMode.first_success = inr refl

-- A chain that ValidateChain accepts builds.
accepted_chain_builds :
    (order : List String → List String)
    → ((ks : List String) (k : String) → has_key k (order ks) ≡ has_key k ks)
    → (chain : Chain) (known : Option (List String)) (max : Option ℤ) (v : Validation)
    → validate order chain known max ≡ some v
    → v.ok ≡ true
    → (p : Plan) × (build_plan chain ≡ ok p)
accepted_chain_builds order fair chain known max v checked good =
    sound_builds chain (validate-IsSound order fair chain known max v checked good)

-- A run over the plan of a chain that ValidateChain accepts ends after some number of rounds, with a
-- well-formed output: in every mode, in every order of the blocks of a wave, from every request that
-- is within its budget.
pub accepted_chain_runs :
    (order : List String → List String)
    → ((ks : List String) (k : String) → has_key k (order ks) ≡ has_key k ks)
    → (chain : Chain) (known : Option (List String)) (max : Option ℤ) (v : Validation)
    → validate order chain known max ≡ some v
    → v.ok ≡ true
    → (c : Context) → build_plan chain ≡ ok c.plan
    → (sched : List String → List String) (w : World) → IsAccounted c w
    → (fuel : ℕ) × (out : Output) × (run fuel c sched w ≡ some out) × IsWellFormed c out
accepted_chain_runs order fair chain known max v checked good c built sched w accounted =
    let s = validate-IsSound order fair chain known max v checked good in
    let fuel = s.rank c.plan.start.key + 1 + length c.plan.order + 1 in
    let (out, ends, formed) = sound_runs chain s c built sched fuel w (omega arith) accounted in
    (fuel, out, ends, formed)
