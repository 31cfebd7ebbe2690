-- ===== src/Engine/FirstEnds.antt =====
-- runFirstSuccess of internal/engine/engine.go: its output and its fuel.
use serpent_seek.Prelude.{
  ℕ, zero, suc, ◌+◌, ◌≤◌, ◌<◌, String, ◌≡◌, refl, ◌⊎◌, inl, inr, Bool, Option, none, some, List, [],
  length, ltb, In, arith, Bool-cases, Option-cases, ◌==◌,
}
use mathlib.Core.Path.{subst, sym, ap}
use mathlib.Core.Option.{some-injective}
use serpent_seek.Models.{Chain, ChainEdge, ChainNode, Row, Outcome}
use serpent_seek.Plan.{build_plan, ok, is_provider, next, first_neutral}
use serpent_seek.Plan.Steps.{Leads, next-Leads, first_neutral-Leads}
use serpent_seek.Merge.{Merger, rows_up_to}
use serpent_seek.Engine.State.{Context, World, Target, NodeRun, has_budget}
use serpent_seek.Engine.Words.{provider_rows}
use serpent_seek.Engine.Resolve.{resolve_node}
use serpent_seek.Engine.Attempt.{exec_node}
use serpent_seek.Engine.Budget.{IsAccounted, exec_node-IsAccounted}
use serpent_seek.Engine.Finish.{Output}
use serpent_seek.Engine.First.{
  FirstState, FirstMove, go, done, stop_with, after_run, after_resolve, first_round, first_end,
  failed_outcome, failed_status, with_last_error, first_loop, first_start, run_first_success,
}
use serpent_seek.Engine.Outputs.{
  IsWellFormed, resolve_node-IsAccounted, record_skip-IsAccounted, finalize-IsWellFormed,
  length-cap_rows,
}

FirstMove-cases : (m : FirstMove) → ((s : FirstState) × (m ≡ go s)) ⊎ ((o : Output) × (m ≡ done o))
FirstMove-cases (go s) = inl (s, refl)
FirstMove-cases (done o) = inr (o, refl)

Outcome-cases : (o : Outcome) → (o ≡ Outcome.success) ⊎ (o ≡ Outcome.empty) ⊎ (o ≡ Outcome.fail)
Outcome-cases Outcome.success = inl refl
Outcome-cases Outcome.empty = inr (inl refl)
Outcome-cases Outcome.fail = inr (inr refl)

module _ (c : Context) (logical_new : Bool) where
  abbrev MoveOk : FirstMove → Type 0
  MoveOk (go s) = IsAccounted c s.world
  MoveOk (done out) = IsWellFormed c out

  stop_with-IsWellFormed :
      (t : Target) (rows : List Row) (m : Merger) (w : World)
      → IsAccounted c w
      → IsWellFormed c (stop_with c t rows m w)
  unfolding stop_with provider_rows
  stop_with-IsWellFormed t rows m w v = elim (Bool-cases (ltb 0 (length m.rows))) [
    | inl merged ↦
        rw merged
          (finalize-IsWellFormed c "ok" _ _ w v (inl refl) (inl refl) (length-cap_rows c.count _))
    | inr single ↦
        rw single
          (finalize-IsWellFormed c "ok" _ _ w v (inl refl) (inl refl) (length-cap_rows c.count _))
  ]

  after_run-MoveOk :
      (n : ChainNode) (t : Target) (s : FirstState) (r : NodeRun × World)
      → IsAccounted c r.1
      → MoveOk (after_run c logical_new n t s r)
  unfolding after_run
  after_run-MoveOk n t s (run, w) v = ground (arith, stop_with-IsWellFormed t run.rows s.merged w v)

  after_resolve-MoveOk :
      (n : ChainNode) (s : FirstState) (r : Target × World)
      → IsAccounted c r.1
      → MoveOk (after_resolve c logical_new n s r)
  unfolding after_resolve
  after_resolve-MoveOk n s (t, w) v = elim (Bool-cases (t.reason == "")) [
    | inl alive ↦
        rw (alive, after_resolve)
          (after_run-MoveOk n t s (exec_node c s.idx n t w) (exec_node-IsAccounted c s.idx n t w v))
    | inr skipped ↦ rw (skipped, after_resolve) (record_skip-IsAccounted c s.idx n t w v)
  ]

  first_round-MoveOk :
      (n : ChainNode) (s : FirstState)
      → IsAccounted c s.world
      → MoveOk (first_round c logical_new n s)
  unfolding first_round
  first_round-MoveOk n s v = elim (Bool-cases (is_provider n)) [
    | inl real ↦
        rw (real, first_round)
          (after_resolve-MoveOk n s (resolve_node c n s.world)
            (resolve_node-IsAccounted c n s.world v))
    | inr logical ↦ rw (logical, first_round) v
  ]

  first_end-IsWellFormed : (s : FirstState) → IsAccounted c s.world → IsWellFormed c (first_end c s)
  unfolding first_end
  first_end-IsWellFormed s v = elim (Bool-cases (ltb 0 (length s.merged.rows))) [
    | inl merged ↦
        rw (merged, first_end)
          (finalize-IsWellFormed c "ok" _ _ s.world v (inl refl) (inl refl)
            (unfold rows_up_to in length-cap_rows c.count s.merged.rows))
    | inr single ↦
        rw (single, first_end)
          (finalize-IsWellFormed c (failed_status s.last) [] "" (with_last_error s.last s.world)
            (unfold with_last_error in ground arith) (unfold failed_status in ground arith)
            (inr refl) (ground arith))
  ]

  first_loop-IsWellFormed :
      (fuel : ℕ) (s : FirstState) (out : Output)
      → IsAccounted c s.world
      → first_loop fuel c logical_new s ≡ some out
      → IsWellFormed c out
  unfolding first_loop
  first_loop-IsWellFormed zero s out v h = cc
  first_loop-IsWellFormed (suc fuel) s out v h = elim (Option-cases s.node) [
    | inl ended ↦
        subst (IsWellFormed c) (some-injective _ out (rw (ended, first_loop) at h))
          (first_end-IsWellFormed s v)
    | inr (n, at_n) ↦ elim (Bool-cases (has_budget c s.world)) [
      | inr spent ↦
          subst (IsWellFormed c) (some-injective _ out (rw (at_n, spent, first_loop) at h))
            (first_end-IsWellFormed s v)
      | inl room ↦
          let kept = first_round-MoveOk n s v in
          elim (FirstMove-cases (first_round c logical_new n s)) [
            | inl (s', e) ↦
                first_loop-IsWellFormed fuel s' out (rw e at kept)
                  (rw (at_n, room, e, first_loop) at h)
            | inr (o, e) ↦
                subst (IsWellFormed c) (some-injective o out (rw (at_n, room, e, first_loop) at h))
                  (rw e at kept)
          ]
    ]
  ]

  -- where a round leaves the walk
  abbrev Follows : ChainNode → FirstMove → Type 0
  Follows n (go s) =
      (s.node ≡ next c.plan n Outcome.success)
      ⊎ (s.node ≡ next c.plan n Outcome.empty)
      ⊎ (s.node ≡ next c.plan n Outcome.fail)
      ⊎ (s.node ≡ first_neutral c.plan n)
  Follows n (done out) = Unit

  after_run-Follows :
      (n : ChainNode) (t : Target) (s : FirstState) (r : NodeRun × World)
      → Follows n (after_run c logical_new n t s r)
  unfolding after_run
  after_run-Follows n t s (run, w) = ground (arith, Outcome-cases (failed_outcome c n t run.result))

  first_round-Follows : (n : ChainNode) (s : FirstState) → Follows n (first_round c logical_new n s)
  unfolding first_round after_resolve
  first_round-Follows n s =
      let (t, w) = resolve_node c n s.world in
      ground (arith, after_run-Follows n t s (exec_node c s.idx n t w))

-- A numbering that falls along every edge between nodes: the chain has no cycle.
pub record IsRanked (chain : Chain) (rank : String → ℕ) : Type 0 where
  pub falls :
      (e : ChainEdge) (m : ChainNode)
      → In e chain.edges
      → In m chain.nodes
      → e.to_key ≡ m.key
      → rank m.key < rank e.from_key

module _ (chain : Chain) (rank : String → ℕ) (ranked : IsRanked chain rank) (c : Context)
    (built : build_plan chain ≡ ok c.plan) (logical_new : Bool) where
  Leads-lt : (n m : ChainNode) (e : ChainEdge) → Leads chain n m e → rank m.key < rank n.key
  Leads-lt n m e l =
      subst (λ k. rank m.key < rank k) l.source (ranked.falls e m l.listed l.node l.target)

  abbrev left : Option ChainNode → ℕ
  left none = 0
  left (some n) = suc (rank n.key)

  next-lt : (n : ChainNode) (o : Outcome) → left (next c.plan n o) ≤ rank n.key
  next-lt n o = elim (Option-cases (next c.plan n o)) [
    | inl e ↦ rw e (omega arith)
    | inr (m, e) ↦ let (x, l, _) = next-Leads chain c.plan built n m o e in rw e (Leads-lt n m x l)
  ]

  first_neutral-lt : (n : ChainNode) → left (first_neutral c.plan n) ≤ rank n.key
  first_neutral-lt n = elim (Option-cases (first_neutral c.plan n)) [
    | inl e ↦ rw e (omega arith)
    | inr (m, e) ↦
        let (x, l, _) = first_neutral-Leads chain c.plan built n m e in rw e (Leads-lt n m x l)
  ]

  Follows-lt :
      (n : ChainNode) (s : FirstState) → Follows c logical_new n (go s) → left s.node ≤ rank n.key
  Follows-lt n s (inl e) = subst (λ x. left x ≤ rank n.key) (sym e) (next-lt n Outcome.success)
  Follows-lt n s (inr (inl e)) = subst (λ x. left x ≤ rank n.key) (sym e) (next-lt n Outcome.empty)
  Follows-lt n s (inr (inr (inl e))) =
      subst (λ x. left x ≤ rank n.key) (sym e) (next-lt n Outcome.fail)
  Follows-lt n s (inr (inr (inr e))) = subst (λ x. left x ≤ rank n.key) (sym e) (first_neutral-lt n)

  first_loop_ends :
      (fuel : ℕ) (s : FirstState)
      → left s.node < fuel
      → (out : Output) × (first_loop fuel c logical_new s ≡ some out)
  unfolding first_loop
  first_loop_ends zero s h = absurd (omega arith)
  first_loop_ends (suc fuel) s h = elim (Option-cases s.node) [
    | inl ended ↦ (first_end c s, simp (ended, first_loop))
    | inr (n, at_n) ↦ elim (Bool-cases (has_budget c s.world)) [
      | inr spent ↦ (first_end c s, simp (at_n, spent, first_loop))
      | inl room ↦ elim (FirstMove-cases (first_round c logical_new n s)) [
        | inr (o, e) ↦ (o, simp (at_n, room, e, first_loop))
        | inl (s', e) ↦
            let moved : Follows c logical_new n (go s') =
              rw e at (first_round-Follows c logical_new n s) in
            let (out, ends) =
              first_loop_ends fuel s' (omega (arith, Follows-lt n s' moved, ap left at_n)) in
            (out, simp (at_n, room, e, first_loop) ends)
      ]
    ]
  ]

  -- On a chain whose edges fall along a numbering, and for a request that is within its budget at the
  -- start, the fallback walk returns: as many rounds as the number of the start block, and two more,
  -- are enough. Its output is well formed.
  pub run_first_success_returns :
      (fuel : ℕ) (w : World)
      → rank c.plan.start.key + 1 < fuel
      → IsAccounted c w
      → (out : Output) × (run_first_success fuel c logical_new w ≡ some out) × IsWellFormed c out
  unfolding run_first_success first_start
  run_first_success_returns fuel w h v =
      let (out, ends) = first_loop_ends fuel (first_start c w) (omega arith) in
      (out, ends, first_loop-IsWellFormed c logical_new fuel (first_start c w) out v ends)
