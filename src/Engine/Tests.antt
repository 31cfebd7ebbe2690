-- ===== src/Engine/Tests.antt =====
-- Runs of the engine on the sample chains: the first provider fails, the second finds a row.
use serpent_seek.Engine.Limiter.{
  SemLimiter, Reaches, starts, steps, acquires, new_sem_limiter, set_limit_locked, acquire, release,
}
use serpent_seek.Engine.Limiter.Fair.{IsFair, Reaches-IsFair}
use serpent_seek.Prelude.{
  ℕ, ◌<◌, String, ◌≡◌, refl, true, false, none, some, In, inl, inr, lookup, insert, trim_space,
  to_lower, arith, ◌==◌, if◌then◌else◌, pos, List, [], ◌∷◌, ◌++◌,
}
use mathlib.Core.Path.{subst, sym}
use serpent_seek.Models.{Chain, ChainEdge}
use serpent_seek.Plan.{
  ok, kind, is_kind_start, build_plan, index_nodes, index_edges, order_of, first_node, entry,
}
use serpent_seek.Engine.State.{Context, Target}
use serpent_seek.Engine.Attempt.{exec_node}
use serpent_seek.Engine.Finish.{Output}
use serpent_seek.Engine.Budget.{IsAccounted, exec_node-IsAccounted}
use serpent_seek.Engine.Attempts.{IsConfigured, IsOpen, resolve_node-ready}
use serpent_seek.Cooldown.{blocked}
use serpent_seek.Engine.State.{is_dead}
use serpent_seek.Engine.Words.{is_blank}
use serpent_seek.Engine.Resolve.{
  resolve_node, skip_reason, instance_dead_reason, is_disabled, base_url, credential,
  provider_requires_key, driver_of, is_registered,
}
use serpent_seek.Engine.Outputs.{IsWellFormed}
use serpent_seek.Engine.First.{run_first_success}
use serpent_seek.Engine.FirstEnds.{IsRanked, run_first_success_returns}
use serpent_seek.Engine.Legacy.{run_full_chain_legacy}
use serpent_seek.Engine.LegacyEnds.{run_full_chain_legacy_returns}
use serpent_seek.Engine.Full.{run_full_chain}
use serpent_seek.Engine.FullEnds.{run_full_chain_returns}
use serpent_seek.Samples.{chain_of, context, fresh, first_block}

abbrev request : Context
request = context "first_success"

abbrev sample : Chain
sample = chain_of "first_success"

fresh-IsAccounted : IsAccounted request fresh
fresh-IsAccounted = record { within = omega arith; counted = omega arith; recorded = omega arith }

built_sample : build_plan sample ≡ ok request.plan
unfolding build_plan index_nodes index_edges order_of first_node entry kind is_kind_start lookup
    insert trim_space to_lower
built_sample = refl

abbrev rank_of : String → ℕ
rank_of k = if k == "s" then 2 else if k == "a" then 1 else 0

edge-falls : (e : ChainEdge) → In e sample.edges → rank_of e.to_key < rank_of e.from_key
edge-falls e (inl h) = subst (λ x. rank_of x.to_key < rank_of x.from_key) (sym h) (omega arith)
edge-falls e (inr (inl h)) =
    subst (λ x. rank_of x.to_key < rank_of x.from_key) (sym h) (omega arith)
edge-falls e (inr (inr h)) = absurd h

sample-IsRanked : IsRanked sample rank_of
sample-IsRanked = record {
  falls =
      λ e m listed node to. subst (λ k. rank_of k < rank_of e.from_key) to (edge-falls e listed);
}

run_first_success_returns_example :
    (out : Output) × (run_first_success 4 request true fresh ≡ some out) × IsWellFormed request out
run_first_success_returns_example =
    run_first_success_returns sample rank_of sample-IsRanked request built_sample true 4 fresh
      (omega arith) fresh-IsAccounted

run_full_chain_legacy_returns_example :
    (out : Output) × (run_full_chain_legacy 4 request fresh ≡ some out) × IsWellFormed request out
run_full_chain_legacy_returns_example =
    run_full_chain_legacy_returns request sample built_sample 4 fresh
      (unfold order_of in omega arith) fresh-IsAccounted

run_full_chain_returns_example :
    (out : Output) × (run_full_chain 4 request (λ ks. ks) fresh ≡ some out)
    × IsWellFormed request out
run_full_chain_returns_example =
    run_full_chain_returns request (λ ks. ks) 4 fresh (omega arith) fresh-IsAccounted

abbrev target : Target
target = record {
  inst = none;
  driver = "p1";
  display = "p1";
  known = true;
  answer = false;
  reason = "";
}

exec_node-IsAccounted_example : IsAccounted request (exec_node request 0 first_block target fresh).1
exec_node-IsAccounted_example =
    exec_node-IsAccounted request 0 first_block target fresh fresh-IsAccounted

first_alive : (resolve_node request first_block fresh).0.reason ≡ ""
unfolding resolve_node skip_reason instance_dead_reason is_disabled base_url credential
    provider_requires_key driver_of is_registered is_dead blocked is_blank lookup trim_space
    to_lower
first_alive = refl

first_known : (resolve_node request first_block fresh).0.known ≡ true
unfolding resolve_node driver_of is_registered lookup trim_space to_lower
first_known = refl

resolve_node-ready_example :
    IsConfigured (driver_of request first_block) (lookup "p1" request.providers)
    × ¬ In "p1" fresh.dead
    × IsOpen "p1" (request.env.now fresh.calls) fresh.cooldowns
resolve_node-ready_example = resolve_node-ready request first_block fresh first_alive first_known

abbrev two_slots : SemLimiter
two_slots = record { limit = pos 2; ch = some 0; made = record { capacity = 2; held = 1 } ∷ [] }

one_holder : Reaches (pos 2) two_slots (0 ∷ [])
unfolding new_sem_limiter set_limit_locked acquire
one_holder =
    steps (new_sem_limiter (pos 2)) two_slots [] (0 ∷ []) starts
      (acquires 0 (new_sem_limiter (pos 2)) two_slots [] refl)

Reaches-IsFair_example :
    IsFair two_slots (0 ∷ [])
    × ((c : ℕ) (before after : List ℕ)
        → 0 ∷ [] ≡ before ++ c ∷ after
        → (l' : SemLimiter) × (release c two_slots ≡ some l'))
Reaches-IsFair_example = Reaches-IsFair (pos 2) two_slots (0 ∷ []) one_holder
