-- ===== src/Graph/Reach.antt =====
-- reachableFrom, against walks along edges.
use serpent_seek.Prelude.{
  ℕ, zero, suc, ◌+◌, String, ◌≡◌, refl, inl, inr, Bool, true, ◌||◌, some, List, [], ◌∷◌, ◌++◌,
  length, In, arith, Bool-cases, eq_iff, ◌==◌, eq_of_test, eq_self,
}
use mathlib.Core.Path.{subst, sym}
use mathlib.Core.Option.{some-injective}
use serpent_seek.Models.{ChainEdge}
use serpent_seek.Graph.{has_key, adjacent, reach_loop, accepted, reachable_from}
use serpent_seek.Graph.Walks.{Walk, here, step}
use serpent_seek.Graph.Fuel.{reachable_from_returns}

pub has_key-append :
    (k : String) (xs ys : List String) → has_key k (xs ++ ys) ≡ (has_key k xs || has_key k ys)
has_key-append k [] ys = refl
has_key-append k (x ∷ xs) ys = ground (arith, has_key-append k xs ys)

pub adjacent-has_key :
    (e : ChainEdge) (k : String) (es : List ChainEdge)
    → In e es
    → e.from_key ≡ k
    → has_key e.to_key (adjacent es k) ≡ true
unfolding adjacent
adjacent-has_key e k [] h same = absurd h
adjacent-has_key e k (x ∷ es) h same =
    ground (arith, adjacent-has_key e k es, eq_iff x.from_key k, eq_iff x.to_key e.to_key)

pub adjacent-edge :
    (cur k : String) (es : List ChainEdge)
    → has_key k (adjacent es cur) ≡ true
    → (e : ChainEdge) × In e es × (e.from_key ≡ cur) × (e.to_key ≡ k)
unfolding adjacent
adjacent-edge cur k [] h = cc
adjacent-edge cur k (e ∷ es) h = elim (Bool-cases (e.from_key == cur)) [
  | inl leaves ↦ elim (Bool-cases (e.to_key == k)) [
    | inl arrives ↦ (e, inl refl, eq_of_test e.from_key cur leaves, eq_of_test e.to_key k arrives)
    | inr other ↦ later (adjacent-edge cur k es (ground arith))
  ]
  | inr other ↦ later (adjacent-edge cur k es (ground arith))
]
  where
    later :
        (x : ChainEdge) × In x es × (x.from_key ≡ cur) × (x.to_key ≡ k)
        → (x : ChainEdge) × In x (e ∷ es) × (x.from_key ≡ cur) × (x.to_key ≡ k)
    later (x, listed, from, to) = (x, inr listed, from, to)

module _ (es : List ChainEdge) (start : String) where
  record Inv (queue seen : List String) : Type 0 where
    source : (has_key start seen || has_key start queue) ≡ true
    sound_seen : (k : String) → has_key k seen ≡ true → Walk es start k
    sound_queue : (k : String) → has_key k queue ≡ true → Walk es start k
    closed :
        (e : ChainEdge)
        → In e es
        → has_key e.from_key seen ≡ true
        → (has_key e.to_key seen || has_key e.to_key queue) ≡ true

  Inv-skip :
      (cur : String) (queue seen : List String)
      → has_key cur seen ≡ true
      → Inv (cur ∷ queue) seen
      → Inv queue seen
  Inv-skip cur queue seen old v = record {
    source = ground (arith, v.source, eq_iff cur start);
    sound_seen = v.sound_seen;
    sound_queue = λ k h. v.sound_queue k (ground arith);
    closed = λ e listed h. ground (arith, v.closed e listed h, eq_iff cur e.to_key);
  }

  Inv-mark :
      (cur : String) (queue seen : List String)
      → Inv (cur ∷ queue) seen
      → Inv (queue ++ adjacent es cur) (cur ∷ seen)
  Inv-mark cur queue seen v =
      let at_cur = v.sound_queue cur (ground (arith, eq_self cur)) in
      record {
        source = ground (arith, v.source, has_key-append start queue (adjacent es cur));
        sound_seen = λ k h. elim (Bool-cases (cur == k)) [
          | inl same ↦ subst (λ j. Walk es start j) (eq_of_test cur k same) at_cur
          | inr other ↦ v.sound_seen k (ground arith)
        ];
        sound_queue = λ k h. elim (Bool-cases (has_key k queue)) [
          | inl waiting ↦ v.sound_queue k (ground arith)
          | inr new ↦
              let (e, listed, from, to) =
                adjacent-edge cur k es (ground (arith, has_key-append k queue (adjacent es cur))) in
              step e at_cur listed from to
        ];
        closed = λ e listed h. ground (
          arith,
          v.closed e listed,
          has_key-append e.to_key queue (adjacent es cur),
          adjacent-has_key e cur es listed,
          eq_iff cur e.from_key,
        );
      }

  loop-Inv :
      (fuel : ℕ) (queue seen r : List String)
      → Inv queue seen
      → reach_loop fuel es queue seen ≡ some r
      → Inv [] r
  unfolding reach_loop
  loop-Inv zero queue seen r v h = cc
  loop-Inv (suc fuel) [] seen r v h = subst (λ s. Inv [] s) (some-injective seen r h) v
  loop-Inv (suc fuel) (cur ∷ queue) seen r v h = elim (Bool-cases (has_key cur seen)) [
    | inl old ↦
        loop-Inv fuel queue seen r (Inv-skip cur queue seen old v) (rw (old, reach_loop) at h)
    | inr new ↦
        loop-Inv fuel (queue ++ adjacent es cur) (cur ∷ seen) r (Inv-mark cur queue seen v)
          (rw (new, reach_loop) at h)
  ]

  Inv-start : Inv (start ∷ []) []
  Inv-start = record {
    source = ground (arith, eq_self start);
    sound_seen = λ k h. cc;
    sound_queue = λ k h. subst (λ j. Walk es start j) (eq_of_test start k (ground arith)) here;
    closed = λ e listed h. cc;
  }

  complete : (r : List String) {k : String} → Inv [] r → Walk es start k → has_key k r ≡ true
  complete r v here = ground (arith, v.source)
  complete r v (step {j} {k} e w listed from to) =
      let before = complete r v w in
      subst (λ t. has_key t r ≡ true) to
        (ground (arith, v.closed e listed (subst (λ t. has_key t r ≡ true) (sym from) before)))

-- The search returns, and finds a key exactly if a walk along accepted edges leads to it.
pub reachable_from_lem :
    (start : String) (edges : List ChainEdge) (accept : String → Bool) (k : String)
    → (r : List String) × (reachable_from start edges accept ≡ some r)
      × (has_key k r ≡ true → Walk (accepted accept edges) start k)
      × (Walk (accepted accept edges) start k → has_key k r ≡ true)
unfolding reachable_from
reachable_from_lem start edges accept k =
    let (r, ends) = reachable_from_returns start edges accept in
    let v : Inv (accepted accept edges) start [] r =
      loop-Inv (accepted accept edges) start (length (accepted accept edges) + 2) (start ∷ []) [] r
        (Inv-start (accepted accept edges) start) ends in
    (r, ends, v.sound_seen k, complete (accepted accept edges) start r v)
