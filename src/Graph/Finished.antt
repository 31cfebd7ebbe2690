-- ===== src/Graph/Finished.antt =====
-- findCycle: the keys that a search has finished.
use serpent_seek.Prelude.{
  ℕ, zero, suc, String, ◌≡◌, refl, ◌⊎◌, inl, inr, true, false, Option, none, some, List, [], ◌∷◌,
  arith, Bool-cases, eq_iff,
}
use mathlib.Core.Path.{subst}
use serpent_seek.Models.{ChainEdge}
use serpent_seek.Graph.{has_key, adjacent}
use serpent_seek.Graph.Cycle.{Search, cycle, finished, close, and_then, scan, dfs, search_all}
use serpent_seek.Graph.CycleEnds.{color-cases, In→has_key}

module _ (ks : List String) (es : List ChainEdge) where
  -- no key stands twice, and the keys that the edges of a key lead to stand after it
  abbrev pub IsFinished : List String → Type 0
  IsFinished [] = Unit
  IsFinished (u ∷ b) =
      ((v : String) → has_key v (adjacent es u) ≡ true → has_key v ks ≡ true → has_key v b ≡ true)
      × (has_key u b ≡ false)
      × IsFinished b

  pub record Sound (stack b : List String) : Type 0 where
    pub sorted : IsFinished b
    pub apart : (k : String) → has_key k stack ≡ true → has_key k b ≡ false

  pub record Post (stack b b' : List String) : Type 0 where
    pub sound : Sound stack b'
    pub grows : (k : String) → has_key k b ≡ true → has_key k b' ≡ true

  unfoldable pub Visits : (String → List String → Option Search) → List String → Type 0
  Visits visit stack =
      (v : String) (b b' : List String)
      → has_key v stack ≡ false
      → has_key v b ≡ false
      → Sound stack b
      → visit v b ≡ some (finished b')
      → Post stack b b' × (has_key v b' ≡ true)

  and_then-finished :
      (o : Option Search) (go : List String → Option Search) (b' : List String)
      → and_then o go ≡ some (finished b')
      → (b : List String) × (o ≡ some (finished b)) × (go b ≡ some (finished b'))
  unfolding and_then
  and_then-finished none go b' h = ground arith
  and_then-finished (some (cycle p)) go b' h = ground arith
  and_then-finished (some (finished b)) go b' h = (b, refl, h)

  -- what a scan of `vs` leaves
  Scanned : List String → List String → List String → List String → Type 0
  Scanned stack vs b b' =
      Post stack b b'
      × ((v : String) → has_key v vs ≡ true → has_key v ks ≡ true → has_key v b' ≡ true)

  Scanned-nil :
      (stack b b' : List String) → Sound stack b → finished b ≡ finished b' → Scanned stack [] b b'
  unfolding Scanned
  Scanned-nil stack b b' sound e =
      subst (Scanned stack [] b) (finished-injective e)
        (record { sound = sound; grows = λ k h. h }, λ v h known. ground arith)
    where
      finished-injective : finished b ≡ finished b' → b ≡ b'
      finished-injective p = ground arith

  Scanned-cons :
      (stack : List String) (v : String) (vs b b' : List String)
      → ((has_key v ks ≡ false) ⊎ (has_key v b' ≡ true))
      → Scanned stack vs b b'
      → Scanned stack (v ∷ vs) b b'
  unfolding Scanned
  Scanned-cons stack v vs b b' here (post, all) =
      (post, λ k h known. ground (arith, all k, eq_iff v k))

  grown :
      (stack vs b b' : List String)
      → Scanned stack vs b b'
      → (k : String) → has_key k b ≡ true
      → has_key k b' ≡ true
  unfolding Scanned
  grown stack vs b b' (post, all) = post.grows

  Scanned-from :
      (stack vs b m b' : List String)
      → Post stack b m
      → Scanned stack vs m b'
      → Scanned stack vs b b'
  unfolding Scanned
  Scanned-from stack vs b m b' first (post, all) =
      (record { sound = post.sound; grows = λ k h. post.grows k (first.grows k h) }, all)

  scan-Scanned :
      (visit : String → List String → Option Search) (stack : List String)
      → Visits visit stack
      → (vs b b' : List String) → Sound stack b
      → scan visit ks stack vs b ≡ some (finished b')
      → Scanned stack vs b b'
  unfolding scan Visits
  scan-Scanned visit stack visits [] b b' sound h = Scanned-nil stack b b' sound (ground arith)
  scan-Scanned visit stack visits (v ∷ vs) b b' sound h = elim (color-cases ks stack b v) [
    | inl (e, foreign) ↦
        let h' : scan visit ks stack vs b ≡ some (finished b') = rw (e, scan) at h in
        Scanned-cons stack v vs b b' (inl foreign)
          (scan-Scanned visit stack visits vs b b' sound h')
    | inr (inl (e, _, _)) ↦
        let h' : some (cycle (close v stack (v ∷ []))) ≡ some (finished b') = rw (e, scan) at h in
        absurd (ground arith)
    | inr (inr (inl (e, old))) ↦
        let h' : scan visit ks stack vs b ≡ some (finished b') = rw (e, scan) at h in
        let rest = scan-Scanned visit stack visits vs b b' sound h' in
        Scanned-cons stack v vs b b' (inr (grown stack vs b b' rest v old)) rest
    | inr (inr (inr (e, known, new, fresh))) ↦
        let h' : and_then (visit v b) (λ x. scan visit ks stack vs x) ≡ some (finished b') =
          rw (e, scan) at h in
        let (m, first, later) =
          and_then-finished (visit v b) (λ x. scan visit ks stack vs x) b' h' in
        let (post, seen) = visits v b m new fresh sound first in
        let rest = scan-Scanned visit stack visits vs m b' post.sound later in
        Scanned-cons stack v vs b b' (inr (grown stack vs m b' rest v seen))
          (Scanned-from stack vs b m b' post rest)
  ]

  push-Sound :
      (u : String) (stack b : List String)
      → has_key u b ≡ false
      → Sound stack b
      → Sound (u ∷ stack) b
  push-Sound u stack b fresh sound = record {
    sorted = sound.sorted;
    apart = λ k h. ground (arith, sound.apart k, eq_iff u k);
  }

  -- a key that is scanned in full is done
  popped :
      (u : String) (stack b m : List String)
      → has_key u stack ≡ false
      → Scanned (u ∷ stack) (adjacent es u) b m
      → Post stack b (u ∷ m)
  unfolding Scanned
  popped u stack b m new (post, all) = record {
    sound = record {
      sorted = (all, post.sound.apart u (In→has_key u (u ∷ stack) (inl refl)), post.sound.sorted);
      apart = λ k h. ground (arith, post.sound.apart k, eq_iff u k);
    };
    grows = λ k h. ground (arith, post.grows k h);
  }

  pub dfs-Visits : (fuel : ℕ) (stack : List String) → Visits (dfs fuel ks es stack) stack
  unfolding Visits dfs
  dfs-Visits zero stack v b b' new fresh sound h = absurd (ground arith)
  dfs-Visits (suc fuel) stack v b b' new fresh sound h =
      let (m, scanned, ended) =
        and_then-finished (scan (dfs fuel ks es (v ∷ stack)) ks (v ∷ stack) (adjacent es v) b)
          (λ x. some (finished (v ∷ x))) b' h in
      let done =
        scan-Scanned (dfs fuel ks es (v ∷ stack)) (v ∷ stack) (dfs-Visits fuel (v ∷ stack))
          (adjacent es v) b m (push-Sound v stack b fresh sound) scanned in
      let same : v ∷ m ≡ b' = ground arith in
      subst (λ x. Post stack b x × (has_key v x ≡ true)) same
        (popped v stack b m new done, In→has_key v (v ∷ m) (inl refl))

  pub search_all-Sound :
      (visit : String → List String → Option Search)
      → Visits visit []
      → (roots b b' : List String) → Sound [] b
      → search_all visit roots b ≡ some (finished b')
      → Post [] b b' × ((r : String) → has_key r roots ≡ true → has_key r b' ≡ true)
  unfolding search_all Visits
  search_all-Sound visit visits [] b b' sound h =
      let same : b ≡ b' = ground arith in
      subst (λ x. Post [] b x × ((r : String) → has_key r [] ≡ true → has_key r x ≡ true)) same
        (record { sound = sound; grows = λ k p. p }, λ r p. ground arith)
  search_all-Sound visit visits (r ∷ roots) b b' sound h = elim (Bool-cases (has_key r b)) [
    | inl old ↦
        let h' : search_all visit roots b ≡ some (finished b') = rw (old, search_all) at h in
        let (post, all) = search_all-Sound visit visits roots b b' sound h' in
        (post, λ k p. ground (arith, all k, post.grows r old, eq_iff r k))
    | inr fresh ↦
        let h' : and_then (visit r b) (λ x. search_all visit roots x) ≡ some (finished b') =
          rw (fresh, search_all) at h in
        let (m, first, later) =
          and_then-finished (visit r b) (λ x. search_all visit roots x) b' h' in
        let (post, seen) = visits r b m refl fresh sound first in
        let (post', all) = search_all-Sound visit visits roots m b' post.sound later in
        (
          record { sound = post'.sound; grows = λ k p. post'.grows k (post.grows k p) },
          λ k p. ground (arith, all k, post'.grows r seen, eq_iff r k),
        )
  ]
