-- ===== src/Validate/Starts.antt =====
-- ValidateChain: the collection of the start blocks.
use serpent_seek.Prelude.{
  String, ◌≡◌, refl, ◌⊎◌, inl, inr, true, ◌||◌, List, [], ◌∷◌, In, ap, arith, Bool-cases, ◌==◌,
  eq_iff,
}
use mathlib.Core.Path.{subst}
use serpent_seek.Models.{ChainNode}
use serpent_seek.Graph.{has_key}
use serpent_seek.Validate.Shape.{starts_of, insert_sorted, is_entry}

insert_sorted-has_key :
    (j k : String) (ks : List String) → has_key j (insert_sorted k ks) ≡ (k == j || has_key j ks)
unfolding insert_sorted
insert_sorted-has_key j k [] = ground arith
insert_sorted-has_key j k (i ∷ ks) = ground (arith, insert_sorted-has_key j k ks, eq_iff i k)

starts_of-keeps :
    (j : String) (ns : List ChainNode) (found : List String)
    → has_key j found ≡ true
    → has_key j (starts_of ns found) ≡ true
unfolding starts_of
starts_of-keeps j [] found h = h
starts_of-keeps j (n ∷ ns) found h = elim (Bool-cases (is_entry n)) [
  | inl entry ↦
      rw (entry, starts_of)
        (starts_of-keeps j ns (insert_sorted n.key found)
          (ground (arith, insert_sorted-has_key j n.key found)))
  | inr other ↦ rw (other, starts_of) (starts_of-keeps j ns found h)
]

-- the key of every entry is among the starts
pub starts_of-has :
    (n : ChainNode) (ns : List ChainNode) (found : List String)
    → In n ns
    → is_entry n ≡ true
    → has_key n.key (starts_of ns found) ≡ true
unfolding starts_of
starts_of-has n [] found p entry = absurd p
starts_of-has n (x ∷ ns) found (inl e) entry =
    let entry' : is_entry x ≡ true = subst (λ y. is_entry y ≡ true) e entry in
    rw (entry', starts_of)
      (starts_of-keeps n.key ns (insert_sorted x.key found) (
        ground
          (arith, insert_sorted-has_key n.key x.key found, eq_iff x.key n.key, ap (λ y. y.key) e)))
starts_of-has n (x ∷ ns) found (inr p) entry = elim (Bool-cases (is_entry x)) [
  | inl here ↦ rw (here, starts_of) (starts_of-has n ns (insert_sorted x.key found) p entry)
  | inr other ↦ rw (other, starts_of) (starts_of-has n ns found p entry)
]

-- a start is the key of an entry
pub starts_of-entry :
    (k : String) (ns : List ChainNode) (found : List String)
    → has_key k (starts_of ns found) ≡ true
    → (has_key k found ≡ true) ⊎ ((n : ChainNode) × In n ns × (n.key ≡ k) × (is_entry n ≡ true))
unfolding starts_of
starts_of-entry k [] found h = inl h
starts_of-entry k (x ∷ ns) found h = elim (Bool-cases (is_entry x)) [
  | inl entry ↦
      let h' : has_key k (starts_of ns (insert_sorted x.key found)) ≡ true =
        rw (entry, starts_of) at h in
      elim (starts_of-entry k ns (insert_sorted x.key found) h') [
        | inr (n, listed, at_k, starts) ↦ inr (n, inr listed, at_k, starts)
        | inl before ↦ elim (Bool-cases (x.key == k)) [
          | inl same ↦ inr (x, inl refl, (eq_iff x.key k).0 same, entry)
          | inr differs ↦ inl (ground (arith, insert_sorted-has_key k x.key found))
        ]
      ]
  | inr other ↦
      let h' : has_key k (starts_of ns found) ≡ true = rw (other, starts_of) at h in
      elim (starts_of-entry k ns found h') [
        | inr (n, listed, at_k, starts) ↦ inr (n, inr listed, at_k, starts)
        | inl before ↦ inl before
      ]
]
