-- ===== src/Engine/FullEnds.antt =====
-- runFullChain of internal/engine/engine.go: its output and its fuel. The measure of its loop is the
-- number of nodes that no wave has marked.
use serpent_seek.Prelude.{
  ℕ, zero, suc, ◌+◌, ◌≤◌, ◌<◌, String, ◌≡◌, refl, inl, inr, true, false, ◌&&◌, some, List, [], ◌∷◌,
  length, In, keep, In-keep, Dict, arith, if◌then◌else◌, Bool-cases, Option-cases, List-cases, ◌==◌,
  lookup, or_else, ap, insert,
}
use mathlib.Core.Path.{subst, sym, ◌∙◌}
use serpent_seek.Models.{ChainNode}
use serpent_seek.Plan.{is_provider, is_neutral}
use serpent_seek.Graph.{has_key}
use serpent_seek.Graph.Fuel.{reachable_from_returns}
use serpent_seek.Graph.Missing.{missing, missing-cons-lt, missing-cons-le, missing-le}
use serpent_seek.Engine.State.{Context, World, Target, has_budget}
use serpent_seek.Engine.Resolve.{resolve_node, provider_display}
use serpent_seek.Engine.Budget.{IsAccounted, exec_node-IsAccounted}
use serpent_seek.Engine.Finish.{Output}
use serpent_seek.Engine.LegacyEnds.{merge_rows-IsAccounted}
use serpent_seek.Engine.Full.{
  BlockState, FullState, Gathered, block_ran, block_resolved, process, process_all, number,
  complete, is_ready, wave, wave_loop, gather_block, gather, full_start, full_end, run_full_chain,
  blank_block, release_targets, successors,
}
use serpent_seek.Engine.Outputs.{
  IsWellFormed, resolve_node-IsAccounted, record_skip-IsAccounted, finish_full-IsWellFormed,
}

not_done :
    (reachable : List String) (k : String) (s : FullState)
    → is_ready reachable s k ≡ true
    → has_key k s.done ≡ false
unfolding is_ready
not_done reachable k s p = ground arith

module _ (c : Context) where
  block_resolved-IsAccounted :
      (idx : ℕ) (n : ChainNode) (r : Target × World)
      → IsAccounted c r.1
      → IsAccounted c (block_resolved c idx n r).1
  unfolding block_resolved block_ran
  block_resolved-IsAccounted idx n (t, w) v = elim (Bool-cases (t.reason == "")) [
    | inl alive ↦ rw (alive, block_resolved) (exec_node-IsAccounted c idx n t w v)
    | inr skipped ↦ rw (skipped, block_resolved) (record_skip-IsAccounted c idx n t w v)
  ]

  process-IsAccounted :
      (k : String) (s : FullState) → IsAccounted c s.world → IsAccounted c (process c k s).1
  unfolding process
  process-IsAccounted k s v = elim (Option-cases (lookup k c.plan.nodes)) [
    | inl gone ↦ rw (gone, process) v
    | inr (n, found) ↦ elim (Bool-cases (is_provider n)) [
      | inl real ↦
          rw (found, real, process)
            (block_resolved-IsAccounted (or_else (lookup k s.idx_by_key) 0) n
              (resolve_node c n s.world) (resolve_node-IsAccounted c n s.world v))
      | inr logical ↦ rw (found, logical, process) v
    ]
  ]

  -- what a part of a wave leaves: the accounts, and the blocks that were done
  abbrev Kept : FullState → FullState → Type 0
  Kept s s' = IsAccounted c s'.world × (s'.done ≡ s.done)

  process_all-Kept :
      (ks : List String) (s : FullState) → IsAccounted c s.world → Kept s (process_all c ks s)
  unfolding process_all
  process_all-Kept [] s v = (v, refl)
  process_all-Kept (k ∷ ks) s v =
      process_all-Kept ks
        (record s { states = insert k (process c k s).0 s.states; world = (process c k s).1 })
        (process-IsAccounted k s v)

  number-Kept :
      (ks : List String) (s : FullState)
      → ((number c.plan ks s).world ≡ s.world) × ((number c.plan ks s).done ≡ s.done)
  unfolding number
  number-Kept [] s = (refl, refl)
  number-Kept (k ∷ ks) s = elim (Option-cases (lookup k c.plan.nodes)) [
    | inl gone ↦ rw (gone, number) (number-Kept ks s)
    | inr (n, found) ↦ elim (Bool-cases (is_provider n)) [
      | inl real ↦
          rw (found, real, number)
            (number-Kept ks (record s {
              idx_by_key = insert k s.next_idx s.idx_by_key;
              next_idx = s.next_idx + 1;
            }))
      | inr logical ↦ rw (found, logical, number) (number-Kept ks s)
    ]
  ]

  complete-missing :
      (reachable ks order : List String) (s : FullState)
      → ((complete c.plan reachable ks s).world ≡ s.world)
        × (missing (complete c.plan reachable ks s).done order ≤ missing s.done order)
  unfolding complete
  complete-missing reachable [] order s = (refl, omega arith)
  complete-missing reachable (k ∷ ks) order s =
      let rest = complete-missing reachable ks order (record s {
        done = k ∷ s.done;
        indeg = release_targets reachable (successors c.plan k) s.indeg;
      }) in
      (rest.0, omega (arith, rest.1, missing-cons-le k s.done order))

  module _ (sched : List String → List String) (reachable : List String) where
    wave-fewer :
        (k : String) (ks : List String) (s : FullState)
        → In k c.plan.order
        → has_key k s.done ≡ false
        → IsAccounted c s.world
        → IsAccounted c (wave c sched reachable (k ∷ ks) s).world
          × (missing (wave c sched reachable (k ∷ ks) s).done c.plan.order
              < missing s.done c.plan.order)
    unfolding wave complete
    wave-fewer k ks s listed new v =
        let named = number-Kept (k ∷ ks) s in
        let s₁ = number c.plan (k ∷ ks) s in
        let ran = process_all-Kept (sched (k ∷ ks)) s₁ (subst (IsAccounted c) (sym named.0) v) in
        let s₂ = process_all c (sched (k ∷ ks)) s₁ in
        let s₃ = record s₂ {
          done = k ∷ s₂.done;
          indeg = release_targets reachable (successors c.plan k) s₂.indeg;
        } in
        let finished = complete-missing reachable ks c.plan.order s₃ in
        let same : s₂.done ≡ s.done = ran.1 ∙ named.1 in
        (
          subst (IsAccounted c) (sym finished.0) ran.0,
          omega (
            arith,
            finished.1,
            ap (λ d. missing (k ∷ d) c.plan.order) same,
            missing-cons-lt k s.done c.plan.order listed new,
          ),
        )

    wave_loop_ends :
        (fuel : ℕ) (s : FullState)
        → missing s.done c.plan.order < fuel
        → IsAccounted c s.world
        → (s' : FullState) × (wave_loop c sched reachable fuel s ≡ some s') × IsAccounted c s'.world
    unfolding wave_loop
    wave_loop_ends zero s h v = absurd (omega arith)
    wave_loop_ends (suc fuel) s h v = elim (Bool-cases (has_budget c s.world)) [
      | inr spent ↦ (s, simp (spent, wave_loop), v)
      | inl room ↦ elim (List-cases (keep (is_ready reachable s) c.plan.order)) [
        | inl empty ↦ (s, simp (room, empty, wave_loop), v)
        | inr (k, ks, ready) ↦
            let (listed, passes) =
              In-keep (is_ready reachable s) k c.plan.order (subst (In k) (sym ready) (inl refl)) in
            let (v', fewer) = wave-fewer k ks s listed (not_done reachable k s passes) v in
            let less : missing (wave c sched reachable (k ∷ ks) s).done c.plan.order < fuel =
              omega (arith, fewer, h) in
            let (s', ends, kept) =
              wave_loop_ends fuel (wave c sched reachable (k ∷ ks) s) less v' in
            let ends' : wave_loop c sched reachable (suc fuel) s ≡ some s' =
              simp (room, ready, wave_loop) ends in
            (s', ends', kept)
      ]
    ]

  gather_block-IsAccounted :
      (n : ChainNode) (b : BlockState) (g : Gathered)
      → IsAccounted c g.world
      → IsAccounted c (gather_block c n b g).world
  unfolding gather_block
  gather_block-IsAccounted n b g v =
      let name = provider_display n.provider_id (lookup n.provider_id c.providers) in
      let answered : World =
        if b.answer == "" then g.world else record (g.world) { answer = b.answer } in
      let v' : IsAccounted c answered = ground arith in
      ground (arith, v', merge_rows-IsAccounted c name b.rows g.merged answered v')

  gather-IsAccounted :
      (reachable : List String) (states : Dict BlockState) (ks : List String) (g : Gathered)
      → IsAccounted c g.world
      → IsAccounted c (gather c reachable states ks g).world
  unfolding gather
  gather-IsAccounted reachable states [] g v = v
  gather-IsAccounted reachable states (k ∷ ks) g v = elim (Option-cases (lookup k c.plan.nodes)) [
    | inl gone ↦ rw (gone, gather) (gather-IsAccounted reachable states ks g v)
    | inr (n, found) ↦ elim (Bool-cases (has_key k reachable && is_provider n)) [
      | inl used ↦
          rw (found, used, gather)
            (gather-IsAccounted reachable states ks _
              (gather_block-IsAccounted n (or_else (lookup k states) blank_block) g v))
      | inr unused ↦ rw (found, unused, gather) (gather-IsAccounted reachable states ks g v)
    ]
  ]

  full_end-IsWellFormed :
      (reachable : List String) (s : FullState)
      → IsAccounted c s.world
      → IsWellFormed c (full_end c reachable s)
  unfolding full_end
  full_end-IsWellFormed reachable s v =
      finish_full-IsWellFormed c _ _ _ _ (gather-IsAccounted reachable s.states c.plan.order _ v)

-- For every plan, in every order of the blocks of a wave, and for a request that is within its budget
-- at the start, the wave executor returns: one round for each node, and one more, are enough. Its
-- output is well formed.
pub run_full_chain_returns :
    (c : Context) (sched : List String → List String) (fuel : ℕ) (w : World)
    → length c.plan.order < fuel
    → IsAccounted c w
    → (out : Output) × (run_full_chain fuel c sched w ≡ some out) × IsWellFormed c out
unfolding run_full_chain full_start
run_full_chain_returns c sched fuel w enough v =
    let (reachable, reached) =
      reachable_from_returns c.plan.start.key c.plan.chain.edges is_neutral in
    let (s, ends, v') =
      wave_loop_ends c sched reachable fuel (full_start c reachable w)
        (omega (arith, enough, missing-le [] c.plan.order)) v in
    let returns : run_full_chain fuel c sched w ≡ some (full_end c reachable s) =
      simp (reached, ends, run_full_chain) in
    (full_end c reachable s, returns, full_end-IsWellFormed c reachable s v')
