-- ===== src/Graph/Closed.antt =====
-- findCycle: the path that a search reports.
use serpent_seek.Prelude.{
  ℕ, zero, suc, String, ◌≡◌, refl, ◌⊎◌, inl, inr, true, Option, none, some, List, [], ◌∷◌, length,
  arith, Bool-cases, ◌==◌, eq_iff, eq_of_test,
}
use mathlib.Core.Path.{subst, sym}
use serpent_seek.Models.{ChainEdge}
use serpent_seek.Graph.{has_key, adjacent}
use serpent_seek.Graph.Cycle.{
  Search, cycle, finished, close, and_then, scan, dfs, search_all, find_cycle,
}
use serpent_seek.Graph.CycleEnds.{color-cases}

module _ (es : List ChainEdge) where
  -- the keys of a walk along edges, in order, up to `end`
  abbrev pub IsTrail : String → List String → Type 0
  IsTrail end [] = ⊥
  IsTrail end (k ∷ []) = k ≡ end
  IsTrail end (k ∷ j ∷ p) = (has_key j (adjacent es k) ≡ true) × IsTrail end (j ∷ p)

  -- at least one edge, and back where it began
  abbrev pub IsCycle : List String → Type 0
  IsCycle p = (v j : String) × (q : List String) × (p ≡ v ∷ j ∷ q) × IsTrail v (v ∷ j ∷ q)

  -- the keys of the stack lead to each other, and its top leads to `k`
  abbrev IsLinked : String → List String → Type 0
  IsLinked k [] = Unit
  IsLinked k (t ∷ stack) = (has_key k (adjacent es t) ≡ true) × IsLinked t stack

  close-IsCycle :
      (v : String) (stack : List String) (k : String) (p : List String)
      → has_key v stack ≡ true
      → IsLinked k stack
      → IsTrail v (k ∷ p)
      → IsCycle (close v stack (k ∷ p))
  unfolding close
  close-IsCycle v [] k p h linked trail = absurd (ground arith)
  close-IsCycle v (t ∷ stack) k p h (edge, linked) trail = elim (Bool-cases (t == v)) [
    | inl here ↦
        rw (here, close)
          (subst (λ x. IsCycle (x ∷ k ∷ p)) (sym (eq_of_test t v here))
            (
              v,
              k,
              p,
              refl,
              (subst (λ x. has_key k (adjacent es x) ≡ true) (eq_of_test t v here) edge, trail),
            ))
    | inr other ↦
        rw (other, close) (close-IsCycle v stack t (k ∷ p) (ground arith) linked (edge, trail))
  ]

  and_then-cycle :
      (o : Option Search) (go : List String → Option Search) (p : List String)
      → and_then o go ≡ some (cycle p)
      → (o ≡ some (cycle p)) ⊎ ((b : List String) × (go b ≡ some (cycle p)))
  unfolding and_then
  and_then-cycle none go p h = ground arith
  and_then-cycle (some (cycle q)) go p h = inl h
  and_then-cycle (some (finished b)) go p h = inr (b, h)

  Closes : (String → List String → Option Search) → List String → Type 0
  Closes visit stack =
      (v : String) (b p : List String) → IsLinked v stack → visit v b ≡ some (cycle p) → IsCycle p

  scan-IsCycle :
      (visit : String → List String → Option Search) (ks stack : List String)
      → Closes visit stack
      → (vs b p : List String) → ((v : String) → has_key v vs ≡ true → IsLinked v stack)
      → scan visit ks stack vs b ≡ some (cycle p)
      → IsCycle p
  unfolding scan Closes
  scan-IsCycle visit ks stack closes [] b p linked h = absurd (ground arith)
  scan-IsCycle visit ks stack closes (v ∷ vs) b p linked h =
      let linked' : (k : String) → has_key k vs ≡ true → IsLinked k stack =
        λ k q. linked k (ground arith) in
      let linked_v : IsLinked v stack = linked v (ground (arith, eq_iff v v)) in
      elim (color-cases ks stack b v) [
        | inl (e, _) ↦
            let h' : scan visit ks stack vs b ≡ some (cycle p) = rw (e, scan) at h in
            scan-IsCycle visit ks stack closes vs b p linked' h'
        | inr (inl (e, _, open_v)) ↦
            let h' : some (cycle (close v stack (v ∷ []))) ≡ some (cycle p) = rw (e, scan) at h in
            let same : close v stack (v ∷ []) ≡ p = ground arith in
            subst IsCycle same (close-IsCycle v stack v [] open_v linked_v refl)
        | inr (inr (inl (e, _))) ↦
            let h' : scan visit ks stack vs b ≡ some (cycle p) = rw (e, scan) at h in
            scan-IsCycle visit ks stack closes vs b p linked' h'
        | inr (inr (inr (e, _, _, _))) ↦
            let h' : and_then (visit v b) (λ x. scan visit ks stack vs x) ≡ some (cycle p) =
              rw (e, scan) at h in
            elim (and_then-cycle (visit v b) (λ x. scan visit ks stack vs x) p h') [
              | inl here ↦ closes v b p linked_v here
              | inr (m, later) ↦ scan-IsCycle visit ks stack closes vs m p linked' later
            ]
      ]

  dfs-Closes : (fuel : ℕ) (ks stack : List String) → Closes (dfs fuel ks es stack) stack
  unfolding Closes dfs
  dfs-Closes zero ks stack v b p linked h = absurd (ground arith)
  dfs-Closes (suc fuel) ks stack v b p linked h =
      elim (and_then-cycle (scan (dfs fuel ks es (v ∷ stack)) ks (v ∷ stack) (adjacent es v) b)
        (λ x. some (finished (v ∷ x))) p h) [
          | inl here ↦
              scan-IsCycle (dfs fuel ks es (v ∷ stack)) ks (v ∷ stack)
                (dfs-Closes fuel ks (v ∷ stack)) (adjacent es v) b p (λ k q. (q, linked)) here
          | inr (m, wrong) ↦ absurd (ground arith)
        ]

  search_all-IsCycle :
      (visit : String → List String → Option Search)
      → Closes visit []
      → (roots b p : List String) → search_all visit roots b ≡ some (cycle p)
      → IsCycle p
  unfolding search_all Closes
  search_all-IsCycle visit closes [] b p h = absurd (ground arith)
  search_all-IsCycle visit closes (r ∷ roots) b p h = elim (Bool-cases (has_key r b)) [
    | inl old ↦
        let h' : search_all visit roots b ≡ some (cycle p) = rw (old, search_all) at h in
        search_all-IsCycle visit closes roots b p h'
    | inr fresh ↦
        let h' : and_then (visit r b) (λ x. search_all visit roots x) ≡ some (cycle p) =
          rw (fresh, search_all) at h in
        elim (and_then-cycle (visit r b) (λ x. search_all visit roots x) p h') [
          | inl here ↦ closes r b p tt here
          | inr (m, later) ↦ search_all-IsCycle visit closes roots m p later
        ]
  ]

-- A cycle that the search reports is a closed walk along the edges, of at least one edge.
find_cycle-IsCycle :
    (ks : List String) (es : List ChainEdge) (p : List String)
    → find_cycle ks es ≡ some (cycle p)
    → IsCycle es p
unfolding find_cycle
find_cycle-IsCycle ks es p h =
    search_all-IsCycle es (dfs (suc (length ks)) ks es []) (dfs-Closes es (suc (length ks)) ks [])
      ks [] p h
