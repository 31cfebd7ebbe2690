-- ===== src/Engine/Full.antt =====
-- runFullChain: the wave executor of chains with a start block. The blocks of a wave run one after
-- another in an order that the scheduler chooses; the attempts of two blocks are not interleaved.
use serpent_seek.Prelude.{
  ℕ, zero, suc, ◌+◌, ◌-◌, ℤ, pos, negsuc, String, Bool, true, false, not, ◌&&◌, Option, none, some,
  List, [], ◌∷◌, Dict, lookup, insert, or_else, keep, eqb, ◌==◌, if◌then◌else◌,
}
use serpent_seek.Models.{ChainNode, Result, Row}
use serpent_seek.Plan.{Plan, is_provider, is_neutral}
use serpent_seek.Graph.{has_key, adjacent, accepted, reachable_from}
use serpent_seek.Merge.{Merger, new_merger}
use serpent_seek.Engine.State.{Context, World, Target, NodeRun, has_budget}
use serpent_seek.Engine.Words.{has_rows, is_blank}
use serpent_seek.Engine.Resolve.{resolve_node, record_skip, provider_display}
use serpent_seek.Engine.Attempt.{exec_node, no_result}
use serpent_seek.Engine.Legacy.{merge_rows}
use serpent_seek.Engine.Finish.{Output, finish_full}

pub record BlockState : Type 0 where
  pub status : String
  pub rows : List Row
  pub result : Result
  pub answer : String

abbrev pub blank_block : BlockState
blank_block = record { status = ""; rows = []; result = no_result; answer = "" }

-- succ[key]: the neutral connectivity
unfoldable pub successors : Plan → String → List String
successors p = adjacent (accepted is_neutral p.chain.edges)

-- a count, which may fall below zero
unfoldable pub one_more : ℤ → ℤ
one_more (pos n) = pos (n + 1)
one_more (negsuc n) = if eqb n 0 then pos 0 else negsuc (n - 1)

unfoldable pub one_less : ℤ → ℤ
one_less (pos n) = if eqb n 0 then negsuc 0 else pos (n - 1)
one_less (negsuc n) = negsuc (n + 1)

unfoldable pub is_zero : ℤ → Bool
is_zero (pos n) = eqb n 0
is_zero (negsuc n) = false

-- one more for each target that is reachable
unfoldable pub count_targets : List String → List String → Dict ℤ → Dict ℤ
count_targets reachable [] m = m
count_targets reachable (k ∷ ks) m =
    count_targets reachable ks
      (if has_key k reachable then insert k (one_more (or_else (lookup k m) (pos 0))) m else m)

unfoldable pub indegrees : Plan → List String → List String → Dict ℤ → Dict ℤ
unfolding count_targets
indegrees p reachable [] m = m
indegrees p reachable (k ∷ ks) m =
    indegrees p reachable ks (count_targets reachable (successors p k) m)

-- one less for each target that is reachable
unfoldable pub release_targets : List String → List String → Dict ℤ → Dict ℤ
release_targets reachable [] m = m
release_targets reachable (k ∷ ks) m =
    release_targets reachable ks
      (if has_key k reachable then insert k (one_less (or_else (lookup k m) (pos 0))) m else m)

pub record FullState : Type 0 where
  pub done : List String
  pub indeg : Dict ℤ
  pub idx_by_key : Dict ℕ
  pub next_idx : ℕ
  pub states : Dict BlockState
  pub world : World

unfoldable pub is_ready : List String → FullState → String → Bool
is_ready reachable s k =
    has_key k reachable && not (has_key k s.done) && is_zero (or_else (lookup k s.indeg) (pos 0))

-- provider blocks of a wave are numbered in plan order
unfoldable pub number : Plan → List String → FullState → FullState
number p [] s = s
number p (k ∷ ks) s = number p ks (elim (lookup k p.nodes) [
  | none ↦ s
  | some n ↦
      if is_provider n
      then record s { idx_by_key = insert k s.next_idx s.idx_by_key; next_idx = s.next_idx + 1 }
      else s
])

-- the state of a block after its run; a block that made no attempt is skipped
unfoldable pub block_of : Target → NodeRun → BlockState
block_of t run =
    if not run.attempted
    then record blank_block { status = "skip" }
    else let ran = record blank_block { result = run.result } in
      if run.result.ok && t.answer && not (is_blank run.result.answer)
      then record ran { status = "ok"; answer = run.result.answer }
      else if run.result.ok && has_rows run.rows
      then record ran { status = "ok"; rows = run.rows }
      else if run.result.ok
      then record ran { status = "empty" }
      else record ran { status = "fail" }

unfoldable pub block_ran : Target → NodeRun × World → BlockState × World
block_ran t (run, w) = (block_of t run, w)

unfoldable pub block_resolved : Context → ℕ → ChainNode → Target × World → BlockState × World
block_resolved c idx n (t, w) =
    if t.reason == ""
    then block_ran t (exec_node c idx n t w)
    else (record blank_block { status = "skip" }, record_skip idx n t w)

-- process
unfoldable pub process : Context → String → FullState → BlockState × World
process c k s = elim (lookup k c.plan.nodes) [
  | none ↦ (blank_block, s.world)
  | some n ↦
      if is_provider n
      then block_resolved c (or_else (lookup k s.idx_by_key) 0) n (resolve_node c n s.world)
      else (record blank_block { status = "ok" }, s.world)
]

unfoldable pub process_all : Context → List String → FullState → FullState
process_all c [] s = s
process_all c (k ∷ ks) s =
    let (block, w) = process c k s in
    process_all c ks (record s { states = insert k block s.states; world = w })

unfoldable pub complete : Plan → List String → List String → FullState → FullState
complete p reachable [] s = s
complete p reachable (k ∷ ks) s =
    complete p reachable ks
      (record s { done = k ∷ s.done; indeg = release_targets reachable (successors p k) s.indeg })

module _ (c : Context) (sched : List String → List String) (reachable : List String) where
  unfoldable pub wave : List String → FullState → FullState
  wave ready s =
      complete c.plan reachable ready (process_all c (sched ready) (number c.plan ready s))

  -- `none` means that the fuel ran out.
  unfoldable pub wave_loop : ℕ → FullState → Option FullState
  wave_loop zero s = none
  wave_loop (suc fuel) s = elim (has_budget c s.world) [
    | false ↦ some s
    | true ↦ elim (keep (is_ready reachable s) c.plan.order) [
      | [] ↦ some s
      | k ∷ ks ↦ wave_loop fuel (wave (k ∷ ks) s)
    ]
  ]

-- the variables of the merge in plan order
pub record Gathered : Type 0 where
  pub merged : Merger
  pub last_status : String
  pub last_err : String
  pub world : World

unfoldable pub gather_block : Context → ChainNode → BlockState → Gathered → Gathered
gather_block c n b g =
    let status = if b.status == "" then g.last_status else b.status in
    let err =
      if b.status == "fail" && not (b.result.error == "") then b.result.error else g.last_err in
    let answered = if b.answer == "" then g.world else record (g.world) { answer = b.answer } in
    let (m, w) =
      if b.status == "ok" && has_rows b.rows
      then merge_rows c (provider_display n.provider_id (lookup n.provider_id c.providers)) b.rows
          g.merged answered
      else (g.merged, answered) in
    record { merged = m; last_status = status; last_err = err; world = w }

unfoldable pub gather : Context → List String → Dict BlockState → List String → Gathered → Gathered
unfolding gather_block
gather c reachable states [] g = g
gather c reachable states (k ∷ ks) g = gather c reachable states ks (elim (lookup k c.plan.nodes) [
  | none ↦ g
  | some n ↦
      if has_key k reachable && is_provider n
      then gather_block c n (or_else (lookup k states) blank_block) g
      else g
])

unfoldable pub full_start : Context → List String → World → FullState
full_start c reachable w = record {
  done = [];
  indeg = insert c.plan.start.key (pos 0) (indegrees c.plan reachable reachable []);
  idx_by_key = [];
  next_idx = 0;
  states = [];
  world = w;
}

unfoldable pub full_end : Context → List String → FullState → Output
full_end c reachable s =
    let g =
      gather c reachable s.states c.plan.order
        (record { merged = new_merger; last_status = ""; last_err = ""; world = s.world }) in
    finish_full c g.merged g.last_status g.last_err g.world

unfoldable pub run_full_chain : ℕ → Context → (List String → List String) → World → Option Output
run_full_chain fuel c sched w =
    elim (reachable_from c.plan.start.key c.plan.chain.edges is_neutral) [
      | none ↦ none
      | some reachable ↦ elim (wave_loop c sched reachable fuel (full_start c reachable w)) [
        | none ↦ none
        | some s ↦ some (full_end c reachable s)
      ]
    ]
