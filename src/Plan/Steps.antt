-- ===== src/Plan/Steps.antt =====
-- Next, NextInFullChain and NeutralSuccessors: where a walk can go from a block.
use serpent_seek.Prelude.{
  ◌∙◌, ◌≡◌, ◌≢◌, refl, ◌⊎◌, inl, inr, Bool, true, none, some, List, [], ◌∷◌, lookup, find, In,
  In-keep, In_of_find, Dict, ne_of_test, ◌==◌, eq_iff, Option-cases, List-cases, In-or_else_find,
  In-keep_intro, sym, Bool-cases, ◌↔◌, eq_of_test,
}
use mathlib.Core.Option.{none-ne-some}
use serpent_seek.Models.{ChainNode, ChainEdge, Chain, Outcome}
use serpent_seek.Plan.{
  Plan, ok, build_plan, out_edges, policy_for, edge_matches, is_neutral, choose_next, follow, next,
  next_in_full_chain, neutral_targets, outcome_text, first_neutral, neutral_successors,
}
use serpent_seek.Plan.Index.{out_edges-eq-leaving, node-lookup}

-- An edge of the chain that leaves `n` and ends in `m`.
pub record Leads (c : Chain) (n : ChainNode) (m : ChainNode) (e : ChainEdge) : Type 0 where
  pub listed : In e c.edges
  pub source : e.from_key ≡ n.key
  pub target : e.to_key ≡ m.key
  pub node : In m c.nodes

choose_next-In :
    (o : Outcome) (e : ChainEdge) (es : List ChainEdge) → In (choose_next o e es) (e ∷ es)
unfolding choose_next
choose_next-In o e es =
    In-or_else_find (λ x. x.condition == outcome_text o) _ (e ∷ es)
      (In-or_else_find (λ x. is_neutral x.condition) e (e ∷ es) (inl refl))

-- the edge's condition is the outcome's word
abbrev pub carries : Outcome → ChainEdge → Bool
carries o e = e.condition == outcome_text o

module _ (c : Chain) (p : Plan) (built : build_plan c ≡ ok p) (n m : ChainNode) where
  out_edges-In : (e : ChainEdge) → In e (out_edges p n.key) ↔ (In e c.edges × (e.from_key ≡ n.key))
  out_edges-In e = rw (out_edges-eq-leaving c p n.key built) (
    λ h.
        let (listed, source) = In-keep (λ x. x.from_key == n.key) e c.edges h in
        (listed, eq_of_test e.from_key n.key source),
    λ h. In-keep_intro (λ x. x.from_key == n.key) e c.edges h.0 ((eq_iff _ _).1 h.1),
  )

  follow-Leads :
      (e : ChainEdge) → In e (out_edges p n.key) → follow p (some e) ≡ some m → Leads c n m e
  unfolding follow
  follow-Leads e within h =
      let (node, same) = node-lookup c p e.to_key m built h in
      let (listed, source) = (out_edges-In e).0 within in
      record { listed = listed; source = source; target = sym same; node = node }

  -- how the edge that `next` follows is chosen
  abbrev pub Chosen : Outcome → ChainEdge → Type 0
  Chosen o e =
      (policy_for n o ≢ "stop")
      × ((policy_for n o ≡ "edge") × (edge_matches e.condition o ≡ true)
          ⊎ (policy_for n o ≢ "edge")
            × ((e.condition ≡ outcome_text o) ⊎ (find (carries o) (out_edges p n.key) ≡ none)))

  choose_next-carries :
      (o : Outcome) (e : ChainEdge) (es : List ChainEdge)
      → ((choose_next o e es).condition ≡ outcome_text o) ⊎ (find (carries o) (e ∷ es) ≡ none)
  unfolding choose_next
  choose_next-carries o e es = elim (Option-cases (find (carries o) (e ∷ es))) [
    | inl none_carries ↦ inr none_carries
    | inr (x, found) ↦ inl (rw found (eq_of_test _ _ ((In_of_find (carries o) x (e ∷ es) found).1)))
  ]

  module _ (o : Outcome) (going : policy_for n o ≢ "stop") where
    by_edge :
        (es : List ChainEdge)
        → out_edges p n.key ≡ es
        → policy_for n o ≡ "edge"
        → follow p (find (λ e. edge_matches e.condition o) es) ≡ some m
        → (e : ChainEdge) × Leads c n m e × Chosen o e
    by_edge es left edge h = elim (Option-cases (find (λ e. edge_matches e.condition o) es)) [
      | inl e ↦ absurd (none-ne-some m (unfold follow in rw e at h))
      | inr (e, found) ↦
          let (listed, matches) = In_of_find (λ e. edge_matches e.condition o) e es found in
          (e, follow-Leads e (rw left listed) (rw found at h), (going, inl (edge, matches)))
    ]

    by_next :
        (first : ChainEdge) (rest : List ChainEdge)
        → out_edges p n.key ≡ first ∷ rest
        → policy_for n o ≢ "edge"
        → follow p (some (choose_next o first rest)) ≡ some m
        → (e : ChainEdge) × Leads c n m e × Chosen o e
    by_next first rest left other h = (
      choose_next o first rest,
      follow-Leads (choose_next o first rest) (rw left (choose_next-In o first rest)) h,
      (going, inr (other, rw left (choose_next-carries o first rest))),
    )

  -- If `next` moves on, an edge of the chain leads from the block to the one reached, and the policy
  -- is not "stop". Under the policy "edge" that edge matches the outcome; under any other it carries
  -- the outcome's word, unless no edge of the block does.
  pub next-Leads :
      (o : Outcome) → next p n o ≡ some m → (e : ChainEdge) × Leads c n m e × Chosen o e
  unfolding next
  next-Leads o h = elim (Bool-cases (policy_for n o == "stop")) [
    | inl stops ↦ absurd (none-ne-some m (rw stops at h))
    | inr goes ↦ elim (List-cases (out_edges p n.key)) [
      | inl left ↦ absurd (none-ne-some m (rw (goes, left) at h))
      | inr (first, rest, left) ↦ elim (Bool-cases (policy_for n o == "edge")) [
        | inl edge ↦
            by_edge o (ne_of_test _ _ goes) (first ∷ rest) left (eq_of_test _ _ edge)
              (rw (goes, left, edge) at h)
        | inr other ↦
            by_next o (ne_of_test _ _ goes) first rest left (ne_of_test _ _ other)
              (rw (goes, left, other) at h)
      ]
    ]
  ]

  pub next_in_full_chain-Leads :
      next_in_full_chain p n ≡ some m
      → (e : ChainEdge) × Leads c n m e × (is_neutral e.condition ≡ true)
  unfolding next_in_full_chain
  next_in_full_chain-Leads h =
      elim (Option-cases (find (λ e. is_neutral e.condition) (out_edges p n.key))) [
        | inl e ↦ absurd (none-ne-some m (unfold follow in rw e at h))
        | inr (e, found) ↦
            let (listed, neutral) = In_of_find (λ x. is_neutral x.condition) e _ found in
            (e, follow-Leads e listed (rw found at h), neutral)
      ]

-- The successors along neutral edges are what those edges lead to, in their order.
pub In-neutral_targets :
    (k : Dict ChainNode) (m : ChainNode) (es : List ChainEdge)
    → In m (neutral_targets k es)
    → (e : ChainEdge) × In e es × (is_neutral e.condition ≡ true) × (lookup e.to_key k ≡ some m)
unfolding neutral_targets
In-neutral_targets k m [] h = absurd h
In-neutral_targets k m (e ∷ es) h = elim (Bool-cases (is_neutral e.condition)) [
  | inl neutral ↦ elim (Option-cases (lookup e.to_key k)) [
    | inl gone ↦ later (In-neutral_targets k m es (rw (neutral, gone) at h))
    | inr (x, found) ↦
        let h' : (m ≡ x) ⊎ In m (neutral_targets k es) = rw (neutral, found) at h in
        elim h' [
          | inl same ↦ (e, inl refl, neutral, rw same found)
          | inr more ↦ later (In-neutral_targets k m es more)
        ]
  ]
  | inr other ↦ later (In-neutral_targets k m es (rw other at h))
]
  where
    later :
        (x : ChainEdge) × In x es × (is_neutral x.condition ≡ true) × (lookup x.to_key k ≡ some m)
        → (x : ChainEdge) × In x (e ∷ es)
          × (is_neutral x.condition ≡ true)
          × (lookup x.to_key k ≡ some m)
    later (x, listed, neutral, found) = (x, inr listed, neutral, found)

-- The first neutral successor of a block is reached along a neutral edge of the chain.
pub first_neutral-Leads :
    (c : Chain) (p : Plan) (built : build_plan c ≡ ok p) (n m : ChainNode)
    → first_neutral p n ≡ some m
    → (e : ChainEdge) × Leads c n m e × (is_neutral e.condition ≡ true)
unfolding first_neutral neutral_successors
first_neutral-Leads c p built n m h =
    elim (List-cases (neutral_targets p.nodes (out_edges p n.key))) [
      | inl empty ↦ absurd (none-ne-some m (rw (empty, first_neutral) at h))
      | inr (x, rest, some_left) ↦
          let same : some x ≡ some m = rw (some_left, first_neutral) at h in
          let (e, listed, neutral, found) =
            In-neutral_targets p.nodes x (out_edges p n.key) (rw some_left (inl refl)) in
          (e, follow-Leads c p built n m e listed (unfold follow in (found ∙ same)), neutral)
    ]
