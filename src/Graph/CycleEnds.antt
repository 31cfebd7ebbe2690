-- ===== src/Graph/CycleEnds.antt =====
-- findCycle: its fuel. Each call puts one more key on the stack.
use serpent_seek.Prelude.{
  ℕ, zero, suc, ◌<◌, String, ◌≡◌, refl, ◌⊎◌, inl, inr, true, false, Option, none, some, List, [],
  ◌∷◌, length, In, arith, Bool-cases, eq_iff,
}
use serpent_seek.Models.{ChainEdge}
use serpent_seek.Graph.{has_key, adjacent}
use serpent_seek.Graph.Missing.{missing, missing-cons-lt, missing-le}
use serpent_seek.Graph.Cycle.{
  Search, cycle, finished, Color, color_of, close, and_then, scan, dfs, search_all, find_cycle,
}

pub has_key→In : (k : String) (ks : List String) → has_key k ks ≡ true → In k ks
has_key→In k [] h = ground arith
has_key→In k (j ∷ ks) h = ground (arith, has_key→In k ks, eq_iff j k, eq_iff k j)

pub In→has_key : (k : String) (ks : List String) → In k ks → has_key k ks ≡ true
In→has_key k [] h = absurd h
In→has_key k (j ∷ ks) h = ground (arith, In→has_key k ks, eq_iff j k, eq_iff k j)

-- the facts behind the colour of a key
pub color-cases :
    (ks stack done : List String) (v : String)
    → (color_of ks stack done v ≡ Color.foreign) × (has_key v ks ≡ false)
      ⊎ (color_of ks stack done v ≡ Color.gray) × (has_key v ks ≡ true) × (has_key v stack ≡ true)
      ⊎ (color_of ks stack done v ≡ Color.black) × (has_key v done ≡ true)
      ⊎ (color_of ks stack done v ≡ Color.white)
        × (has_key v ks ≡ true)
        × (has_key v stack ≡ false)
        × (has_key v done ≡ false)
unfolding color_of
color-cases ks stack done v = ground arith

abbrev pub Returns : Option Search → Type 0
Returns o = (s : Search) × (o ≡ some s)

and_then-Returns :
    (o : Option Search) (go : List String → Option Search)
    → Returns o
    → ((b : List String) → Returns (go b))
    → Returns (and_then o go)
unfolding and_then
and_then-Returns none go (s, e) next = absurd (ground arith)
and_then-Returns (some (cycle p)) go h next = (cycle p, refl)
and_then-Returns (some (finished b)) go h next = next b

scan-Returns :
    (visit : String → List String → Option Search) (ks stack : List String)
    → ((v : String) (b : List String)
        → has_key v ks ≡ true
        → has_key v stack ≡ false
        → Returns (visit v b))
    → (vs done : List String) → Returns (scan visit ks stack vs done)
unfolding scan
scan-Returns visit ks stack ends [] done = (finished done, refl)
scan-Returns visit ks stack ends (v ∷ vs) done = elim (color-cases ks stack done v) [
  | inl (e, _) ↦ rw (e, scan) (scan-Returns visit ks stack ends vs done)
  | inr (inl (e, _, _)) ↦ rw (e, scan) (cycle (close v stack (v ∷ [])), refl)
  | inr (inr (inl (e, _))) ↦ rw (e, scan) (scan-Returns visit ks stack ends vs done)
  | inr (inr (inr (e, known, new, _))) ↦
      rw (e, scan)
        (and_then-Returns (visit v done) (λ b. scan visit ks stack vs b) (ends v done known new)
          (λ b. scan-Returns visit ks stack ends vs b))
]

dfs-Returns :
    (fuel : ℕ) (ks : List String) (es : List ChainEdge) (stack : List String) (u : String)
    (done : List String)
    → has_key u ks ≡ true
    → has_key u stack ≡ false
    → missing stack ks < fuel
    → Returns (dfs fuel ks es stack u done)
unfolding dfs
dfs-Returns zero ks es stack u done known new h = absurd (omega arith)
dfs-Returns (suc fuel) ks es stack u done known new h =
    let less : missing (u ∷ stack) ks < fuel =
      omega (arith, h, missing-cons-lt u stack ks (has_key→In u ks known) new) in
    and_then-Returns (scan (dfs fuel ks es (u ∷ stack)) ks (u ∷ stack) (adjacent es u) done)
      (λ b. some (finished (u ∷ b)))
      (scan-Returns (dfs fuel ks es (u ∷ stack)) ks (u ∷ stack)
        (λ v b known' new'. dfs-Returns fuel ks es (u ∷ stack) v b known' new' less) (adjacent es u)
        done)
      (λ b. (finished (u ∷ b), refl))

search_all-Returns :
    (visit : String → List String → Option Search) (ks : List String)
    → ((v : String) (b : List String) → has_key v ks ≡ true → Returns (visit v b))
    → (roots done : List String) → ((r : String) → has_key r roots ≡ true → has_key r ks ≡ true)
    → Returns (search_all visit roots done)
unfolding search_all
search_all-Returns visit ks ends [] done sub = (finished done, refl)
search_all-Returns visit ks ends (r ∷ roots) done sub =
    let sub' : (k : String) → has_key k roots ≡ true → has_key k ks ≡ true =
      λ k h. sub k (ground arith) in
    let known : has_key r ks ≡ true = sub r (In→has_key r (r ∷ roots) (inl refl)) in
    elim (Bool-cases (has_key r done)) [
      | inl old ↦ rw (old, search_all) (search_all-Returns visit ks ends roots done sub')
      | inr new ↦
          rw (new, search_all)
            (and_then-Returns (visit r done) (λ b. search_all visit roots b) (ends r done known)
              (λ b. search_all-Returns visit ks ends roots b sub'))
    ]

-- The search for a cycle returns, on every list of keys and edges.
pub find_cycle-Returns : (ks : List String) (es : List ChainEdge) → Returns (find_cycle ks es)
unfolding find_cycle
find_cycle-Returns ks es =
    search_all-Returns (dfs (suc (length ks)) ks es []) ks
      (λ v b known.
        dfs-Returns (suc (length ks)) ks es [] v b known refl (omega (arith, missing-le [] ks)))
      ks [] (λ r h. h)
