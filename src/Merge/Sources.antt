-- ===== src/Merge/Sources.antt =====
-- merger.providers, rowsUpTo and the report of merger.add.
use serpent_seek.Prelude.{
  ℕ, ◌≤◌, ◌<◌, String, ◌≡◌, refl, ap, false, ◌||◌, none, List, [], ◌∷◌, ◌++◌, inl, inr, length,
  get_elem?, any, ltb, arith, if◌then◌else◌, eq_iff, length-take-le, get_elem?-take, get_elem?-none,
  Bool-cases,
}
use serpent_seek.Models.{Row}
use serpent_seek.Merge.{
  Merger, add_source, add_row, add, has_text, new_sources, sources_of, providers, cap_rows,
  rows_up_to,
}

module _ (link_key : String → String) where
  add_row-unchanged :
      (provider : String) (row : Row) (m : Merger)
      → (add_row link_key provider row m).0 ≡ false
      → ((add_row link_key provider row m).1.rows ≡ m.rows)
        × ((add_row link_key provider row m).1.by_key ≡ m.by_key)
  unfolding add_row add_source
  add_row-unchanged provider row m h = ground arith

  -- If `add` reports no change, the rows and the index are what they were.
  pub add_unchanged :
      (provider : String) (rows : List Row) (m : Merger)
      → (add link_key provider rows m).0 ≡ false
      → ((add link_key provider rows m).1.rows ≡ m.rows)
        × ((add link_key provider rows m).1.by_key ≡ m.by_key)
  unfolding add
  add_unchanged provider [] m h = (refl, refl)
  add_unchanged provider (row ∷ rows) m h = ground (
    arith,
    add_row-unchanged provider row m,
    add_unchanged provider rows (add_row link_key provider row m).1,
  )

has_text-append :
    (s : String) (xs ys : List String) → has_text s (xs ++ ys) ≡ (has_text s xs || has_text s ys)
has_text-append s [] ys = refl
has_text-append s (x ∷ xs) ys = ground (arith, has_text-append s xs ys)

-- no text stands twice
abbrev pub Distinct : List String → Type 0
Distinct [] = Unit
Distinct (x ∷ xs) = (has_text x xs ≡ false) × Distinct xs

Distinct-concat :
    (xs : List String) (s : String) → Distinct xs → has_text s xs ≡ false → Distinct (xs ++ s ∷ [])
Distinct-concat [] s d h = (refl, tt)
Distinct-concat (x ∷ xs) s d h =
    ground (arith, Distinct-concat xs s d.1, has_text-append x xs (s ∷ []), eq_iff x s, eq_iff s x)

new_sources-Distinct : (ss out : List String) → Distinct out → Distinct (new_sources ss out)
unfolding new_sources
new_sources-Distinct [] out d = d
new_sources-Distinct (s ∷ ss) out d = elim (Bool-cases (has_text s out)) [
  | inl old ↦ rw (old, new_sources) (new_sources-Distinct ss out d)
  | inr new ↦
      rw (new, new_sources) (new_sources-Distinct ss (out ++ s ∷ []) (Distinct-concat out s d new))
]

same_text : (x s : String) (out : List String) → x ≡ s → has_text x out ≡ has_text s out
same_text x s out h = ap (λ t. has_text t out) h

has_text-new_sources :
    (s : String) (ss out : List String)
    → has_text s (new_sources ss out) ≡ (has_text s out || has_text s ss)
unfolding new_sources
has_text-new_sources s [] out = ground arith
has_text-new_sources s (x ∷ ss) out = ground (
  arith,
  has_text-new_sources s ss out,
  has_text-new_sources s ss (out ++ x ∷ []),
  has_text-append s out (x ∷ []),
  same_text x s out,
  eq_iff x s,
)

sources_of-Distinct :
    (rs : List Row) (out : List String) → Distinct out → Distinct (sources_of rs out)
unfolding sources_of
sources_of-Distinct [] out d = d
sources_of-Distinct (r ∷ rs) out d =
    sources_of-Distinct rs (new_sources r.sources out) (new_sources-Distinct r.sources out d)

has_text-sources_of :
    (s : String) (rs : List Row) (out : List String)
    → has_text s (sources_of rs out) ≡ (has_text s out || any (λ r. has_text s r.sources) rs)
unfolding sources_of
has_text-sources_of s [] out = ground arith
has_text-sources_of s (r ∷ rs) out = ground (
  arith,
  has_text-sources_of s rs (new_sources r.sources out),
  has_text-new_sources s r.sources out,
)

-- `providers` names each source of the rows, and none twice.
pub providers_lem :
    (m : Merger) (s : String)
    → Distinct (providers m) × (has_text s (providers m) ≡ any (λ r. has_text s r.sources) m.rows)
unfolding providers
providers_lem m s = (sources_of-Distinct m.rows [] tt, has_text-sources_of s m.rows [])

-- A positive count bounds the rows that are returned; they are the first rows, in their order.
pub rows_up_to_lem :
    (count : ℕ) (m : Merger) (i : ℕ)
    → 0 < count
    → (length (rows_up_to count m) ≤ count)
      × (get_elem? (rows_up_to count m) i ≡ (if ltb i count then get_elem? m.rows i else none))
unfolding rows_up_to cap_rows
rows_up_to_lem count m i h = (
  ground (arith, length-take-le count m.rows),
  ground (arith, get_elem?-take count m.rows i, get_elem?-none m.rows i),
)
