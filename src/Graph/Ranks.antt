-- ===== src/Graph/Ranks.antt =====
-- findCycle: the order of finishing as a numbering of the keys.
use serpent_seek.Prelude.{
  ℕ, suc, ◌<◌, String, ◌≡◌, refl, inl, inr, true, false, some, List, [], ◌∷◌, length, In, arith,
  if◌then◌else◌, Bool-cases, ◌==◌, eq_iff, eq_of_test,
}
use mathlib.Core.Path.{subst, sym}
use serpent_seek.Models.{ChainEdge}
use serpent_seek.Graph.{has_key, adjacent}
use serpent_seek.Graph.Cycle.{finished, dfs, find_cycle}
use serpent_seek.Graph.Reach.{adjacent-has_key}
use serpent_seek.Graph.Finished.{IsFinished, Sound, dfs-Visits, search_all-Sound}

-- the place of a key from the end of the list; `top` for a key that is not there
pub height : ℕ → List String → String → ℕ
height top [] k = top
height top (u ∷ b) k = if u == k then length b else height top b k

height-lt :
    (top : ℕ) (b : List String) (k : String) → has_key k b ≡ true → height top b k < length b
unfolding height
height-lt top [] k h = ground arith
height-lt top (u ∷ b) k h = ground (arith, height-lt top b k)

height-top : (top : ℕ) (b : List String) (k : String) → has_key k b ≡ false → height top b k ≡ top
unfolding height
height-top top [] k h = refl
height-top top (u ∷ b) k h = ground (arith, height-top top b k)

module _ (ks : List String) (es : List ChainEdge) where
  -- an edge from a finished key leads to a finished key that is lower
  height-falls :
      (top : ℕ) (b : List String) (u v : String)
      → IsFinished ks es b
      → has_key u b ≡ true
      → has_key v (adjacent es u) ≡ true
      → has_key v ks ≡ true
      → (has_key v b ≡ true) × (height top b v < height top b u)
  unfolding height
  height-falls top [] u v sorted at_u leads known = ground arith
  height-falls top (x ∷ b) u v (below, once, sorted) at_u leads known = elim (Bool-cases (x == u)) [
    | inl here ↦
        let seen : has_key v b ≡ true =
          below v (subst (λ k. has_key v (adjacent es k) ≡ true) (sym (eq_of_test x u here)) leads)
            known in
        ground (arith, height-lt top b v seen, eq_iff x v)
    | inr other ↦
        let (seen, lower) = height-falls top b u v sorted (ground arith) leads known in
        ground (arith, eq_iff x v)
  ]

-- When the search finds no cycle, the place of a key in the order of finishing falls along every
-- edge that leads to one of the keys: the graph has no cycle.
pub find_cycle_ranks :
    (ks : List String) (es : List ChainEdge) (b : List String)
    → find_cycle ks es ≡ some (finished b)
    → (e : ChainEdge) → In e es
    → has_key e.to_key ks ≡ true
    → height (length b) b e.to_key < height (length b) b e.from_key
unfolding find_cycle
find_cycle_ranks ks es b h e listed known =
    let empty : Sound ks es [] [] = record { sorted = tt; apart = λ k p. refl } in
    let (post, all) =
      search_all-Sound ks es (dfs (suc (length ks)) ks es [])
        (dfs-Visits ks es (suc (length ks)) []) ks [] b empty h in
    let low = height-lt (length b) b e.to_key (all e.to_key known) in
    elim (Bool-cases (has_key e.from_key b)) [
      | inl done ↦
          (height-falls ks es (length b) b e.from_key e.to_key post.sound.sorted done
            (adjacent-has_key e e.from_key es listed refl) known).1
      | inr foreign ↦ omega (arith, low, height-top (length b) b e.from_key foreign)
    ]
