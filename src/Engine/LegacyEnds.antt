-- ===== src/Engine/LegacyEnds.antt =====
-- runFullChainLegacy of internal/engine/engine.go: its output and its fuel. The measure of its loop is
-- the number of nodes that it has not visited.
use serpent_seek.Prelude.{
  ℕ, zero, suc, ◌<◌, String, ◌≡◌, refl, inl, inr, not, ◌&&◌, Option, none, some, List, [], ◌∷◌,
  length, In, arith, Bool-cases, Option-cases, ◌==◌,
}
use mathlib.Core.Path.{subst, sym}
use serpent_seek.Models.{Chain, ChainNode, Row}
use serpent_seek.Plan.{build_plan, ok, is_provider, next_in_full_chain, order_of}
use serpent_seek.Plan.Entry.{start-In, In-order_of}
use serpent_seek.Plan.Steps.{next_in_full_chain-Leads}
use serpent_seek.Graph.Missing.{missing, missing-cons-lt, missing-le}
use serpent_seek.Merge.{Merger, has_text}
use serpent_seek.Engine.State.{Context, World, Target, NodeRun, has_budget, publish}
use serpent_seek.Engine.Resolve.{resolve_node}
use serpent_seek.Engine.Attempt.{exec_node}
use serpent_seek.Engine.Budget.{IsAccounted, exec_node-IsAccounted}
use serpent_seek.Engine.Finish.{Output}
use serpent_seek.Engine.Legacy.{
  LegacyState, merge_rows, legacy_run, legacy_resolved, legacy_round, legacy_end, legacy_loop,
  legacy_start, run_full_chain_legacy,
}
use serpent_seek.Engine.Outputs.{
  IsWellFormed, resolve_node-IsAccounted, record_skip-IsAccounted, finish_full-IsWellFormed,
}

module _ (c : Context) where
  pub merge_rows-IsAccounted :
      (display : String) (rows : List Row) (m : Merger) (w : World)
      → IsAccounted c w
      → IsAccounted c (merge_rows c display rows m w).1
  unfolding merge_rows publish
  merge_rows-IsAccounted display rows m w v = ground arith

  -- what a round does to the walk
  pub record Moves (n : ChainNode) (s s' : LegacyState) : Type 0 where
    pub accounted : IsAccounted c s'.world
    pub visited : s'.visited ≡ s.visited
    pub node : s'.node ≡ next_in_full_chain c.plan n

  legacy_run-Moves :
      (n : ChainNode) (t : Target) (s : LegacyState) (r : NodeRun × World)
      → IsAccounted c r.1
      → Moves n s (legacy_run c n t s r)
  unfolding legacy_run
  legacy_run-Moves n t s (run, w) v =
      ground (arith, merge_rows-IsAccounted t.display run.rows s.merged w v)

  legacy_resolved-Moves :
      (n : ChainNode) (s : LegacyState) (r : Target × World)
      → IsAccounted c r.1
      → Moves n s (legacy_resolved c n s r)
  unfolding legacy_resolved
  legacy_resolved-Moves n s (t, w) v = elim (Bool-cases (t.reason == "")) [
    | inl alive ↦
        rw (alive, legacy_resolved)
          (legacy_run-Moves n t s (exec_node c s.idx n t w) (exec_node-IsAccounted c s.idx n t w v))
    | inr skipped ↦
        rw (skipped, legacy_resolved)
          (record {
            accounted = record_skip-IsAccounted c s.idx n t w v;
            visited = refl;
            node = refl;
          })
  ]

  legacy_round-Moves :
      (n : ChainNode) (s : LegacyState)
      → IsAccounted c s.world
      → Moves n (record s { visited = n.key ∷ s.visited }) (legacy_round c n s)
  unfolding legacy_round
  legacy_round-Moves n s v = elim (Bool-cases (is_provider n)) [
    | inl real ↦
        rw (real, legacy_round)
          (legacy_resolved-Moves n (record s { visited = n.key ∷ s.visited })
            (resolve_node c n s.world) (resolve_node-IsAccounted c n s.world v))
    | inr logical ↦
        rw (logical, legacy_round) (record { accounted = v; visited = refl; node = refl })
  ]

  module _ (chain : Chain) (built : build_plan chain ≡ ok c.plan) where
    -- the node at hand is one of the chain
    abbrev Known : Option ChainNode → Type 0
    Known none = Unit
    Known (some n) = In n chain.nodes

    Known-next : (n : ChainNode) → Known (next_in_full_chain c.plan n)
    Known-next n = elim (Option-cases (next_in_full_chain c.plan n)) [
      | inl e ↦ rw e tt
      | inr (m, e) ↦
          let (x, l, _) = next_in_full_chain-Leads chain c.plan built n m e in rw e l.node
    ]

    legacy_loop_ends :
        (fuel : ℕ) (s : LegacyState)
        → missing s.visited (order_of chain.nodes) < fuel
        → Known s.node
        → IsAccounted c s.world
        → (out : Output) × (legacy_loop fuel c s ≡ some out) × IsWellFormed c out
    unfolding legacy_loop
    legacy_loop_ends zero s h k v = absurd (omega arith)
    legacy_loop_ends (suc fuel) s h k v = elim (Option-cases s.node) [
      | inl ended ↦ (legacy_end c s, simp (ended, legacy_loop), end-IsWellFormed s v)
      | inr (n, at_n) ↦ elim (Bool-cases (has_budget c s.world && not (has_text n.key s.visited))) [
        | inr stops ↦ (legacy_end c s, simp (at_n, stops, legacy_loop), end-IsWellFormed s v)
        | inl goes ↦
            let moves = legacy_round-Moves n s v in
            let s' = legacy_round c n s in
            let known : In n chain.nodes = subst Known at_n k in
            let fewer =
              missing-cons-lt n.key s.visited (order_of chain.nodes)
                (In-order_of n chain.nodes known) (ground arith) in
            let (out, ends, formed) =
              legacy_loop_ends fuel s' (rw moves.visited (omega arith))
                (subst Known (sym moves.node) (Known-next n)) moves.accounted in
            (out, simp (at_n, goes, legacy_loop) ends, formed)
      ]
    ]
      where
        end-IsWellFormed :
            (x : LegacyState) → IsAccounted c x.world → IsWellFormed c (legacy_end c x)
        end-IsWellFormed x a =
            unfold legacy_end in
            finish_full-IsWellFormed c x.merged x.last_status x.last_err x.world a

    -- For a request that is within its budget at the start, the linear walk returns on every chain
    -- that builds, with or without cycles: one round for each node, and one more, are enough. Its
    -- output is well formed.
    pub run_full_chain_legacy_returns :
        (fuel : ℕ) (w : World)
        → length (order_of chain.nodes) < fuel
        → IsAccounted c w
        → (out : Output) × (run_full_chain_legacy fuel c w ≡ some out) × IsWellFormed c out
    unfolding run_full_chain_legacy legacy_start
    run_full_chain_legacy_returns fuel w h v =
        legacy_loop_ends fuel (legacy_start c w)
          (omega (arith, missing-le [] (order_of chain.nodes))) (start-In chain c.plan built) v
