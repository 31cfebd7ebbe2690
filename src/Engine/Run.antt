-- ===== src/Engine/Run.antt =====
-- resolveChain, prepare and run: what a request starts from, and which walk it takes.
use serpent_seek.Prelude.{
  ℕ, ℤ, to_ℕ, is_positive, String, Bool, Option, List, trim_space, ◌==◌, if◌then◌else◌,
}
use serpent_seek.Models.{Chain, ChainMode}
use serpent_seek.Plan
use serpent_seek.Plan.{Plan, PlanError, Build, build_plan, has_start_block, snapshot}
use serpent_seek.Engine.State.{Context, World}
use serpent_seek.Engine.Words.{count_of, plan_ignores_count}
use serpent_seek.Engine.First.{run_first_success}
use serpent_seek.Engine.Legacy.{run_full_chain_legacy}
use serpent_seek.Engine.Full.{run_full_chain}
use serpent_seek.Engine.Finish.{Output}

-- What the store answers to a query for one chain.
pub data Found : Type 0 where
  found : Chain → Found
  not_found : Found
  store_error : Found

pub data PrepareError : Type 0 where
  empty_query no_active_chain store_failed : PrepareError
  chain_not_found : String → PrepareError
  bad_plan : PlanError → PrepareError

pub data Prepared : Type 0 where
  ready : Plan → Chain → ℕ → String → Prepared
  failed : PrepareError → Prepared

pub data Resolved : Type 0 where
  chain : Chain → Resolved
  missing : PrepareError → Resolved

module _ (active : Found) (by_id : String → Found) where
  -- An explicit chain that is missing is an error: the active chain does not stand in for it.
  unfoldable pub resolve_chain : String → Resolved
  resolve_chain chain_id =
      let id = trim_space chain_id in
      if id == ""
      then elim active [
        | found c ↦ chain c
        | not_found ↦ missing no_active_chain
        | store_error ↦ missing store_failed
      ]
      else elim (by_id id) [
        | found c ↦ chain c
        | not_found ↦ missing (chain_not_found id)
        | store_error ↦ missing store_failed
      ]

  -- the plan, the snapshot, the effective count (0 is no limit) and the trimmed query
  unfoldable pub prepare : Bool → String → ℤ → String → Prepared
  prepare ignore_count text count chain_id =
      let query = trim_space text in
      if query == "" then failed empty_query else elim (resolve_chain chain_id) [
        | missing e ↦ failed e
        | chain c ↦ elim (build_plan c) [
          | Build.err e ↦ failed (bad_plan e)
          | Build.ok p ↦
              ready p (snapshot p)
                (if ignore_count then 0 else if plan_ignores_count p then 0 else count_of count)
                query
        ]
      ]

unfoldable pub max_attempts_of : ℤ → ℕ
max_attempts_of z = if is_positive z then to_ℕ z else 10

-- `none` means that the fuel ran out.
unfoldable pub run : ℕ → Context → (List String → List String) → World → Option Output
run fuel c sched w = elim (Plan.mode c.plan) [
  | ChainMode.full_chain ↦
      if has_start_block c.plan
      then run_full_chain fuel c sched w
      else run_full_chain_legacy fuel c w
  | ChainMode.first_success ↦ run_first_success fuel c (has_start_block c.plan) w
]
