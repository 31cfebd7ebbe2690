-- ===== src/Graph/Fuel.antt =====
-- reachableFrom: its fuel. A round either drops a queued key, or moves edges from the unseen to the
-- queue.
use serpent_seek.Prelude.{
  ℕ, zero, suc, ◌+◌, ◌<◌, String, ◌≡◌, refl, Bool, false, some, List, [], ◌∷◌, ◌++◌, length, arith,
  length-append, if◌then◌else◌, Bool-cases, inl, inr, eq_iff,
}
use serpent_seek.Models.{ChainEdge}
use serpent_seek.Graph.{has_key, adjacent, reach_loop, accepted, reachable_from}

-- the edges whose source was not seen
unseen : List String → List ChainEdge → ℕ
unseen seen [] = 0
unseen seen (e ∷ es) =
    let rest = unseen seen es in if has_key e.from_key seen then rest else suc rest

unseen-cons :
    (cur : String) (seen : List String) (es : List ChainEdge)
    → has_key cur seen ≡ false
    → unseen (cur ∷ seen) es + length (adjacent es cur) ≡ unseen seen es
unfolding unseen adjacent
unseen-cons cur seen [] h = refl
unseen-cons cur seen (e ∷ es) h =
    ground (arith, unseen-cons cur seen es h, eq_iff e.from_key cur, eq_iff cur e.from_key)

unseen-nil : (es : List ChainEdge) → unseen [] es ≡ length es
unfolding unseen
unseen-nil [] = refl
unseen-nil (e ∷ es) = omega (arith, unseen-nil es)

reach_loop_ends :
    (fuel : ℕ) (es : List ChainEdge) (queue seen : List String)
    → length queue + unseen seen es < fuel
    → (r : List String) × (reach_loop fuel es queue seen ≡ some r)
unfolding reach_loop
reach_loop_ends zero es queue seen h = absurd (omega arith)
reach_loop_ends (suc fuel) es [] seen h = (seen, refl)
reach_loop_ends (suc fuel) es (cur ∷ queue) seen h = elim (Bool-cases (has_key cur seen)) [
  | inl old ↦ rw (old, reach_loop) (reach_loop_ends fuel es queue seen (omega arith))
  | inr new ↦
      rw (new, reach_loop)
        (reach_loop_ends fuel es (queue ++ adjacent es cur) (cur ∷ seen)
          (omega (arith, unseen-cons cur seen es new, length-append queue (adjacent es cur))))
]

-- The search from any key, over any edges, returns.
pub reachable_from_returns :
    (start : String) (edges : List ChainEdge) (accept : String → Bool)
    → (r : List String) × (reachable_from start edges accept ≡ some r)
unfolding reachable_from
reachable_from_returns start edges accept =
    reach_loop_ends (length (accepted accept edges) + 2) (accepted accept edges) (start ∷ []) []
      (omega (arith, unseen-nil (accepted accept edges)))
