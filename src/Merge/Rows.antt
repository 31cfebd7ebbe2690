-- ===== src/Merge/Rows.antt =====
-- merger.add and the rows that were there before.
use serpent_seek.Prelude.{
  ℕ, ◌+◌, String, ◌≡◌, Option, none, some, List, [], ◌∷◌, inl, inr, ◌++◌, get_elem?, arith, lookup,
  get_elem?-concat, get_elem?-set, get_elem?-length, Option-cases,
}
use serpent_seek.Models.{Row}
use serpent_seek.Merge.{Merger, add_source, append_row, add_row, add}

-- The row found has the link, the title and the snippet of `r`.
abbrev pub Kept : Row → Option Row → Type 0
Kept r none = ⊥
Kept r (some s) = (s.link ≡ r.link) × (s.title ≡ r.title) × (s.snippet ≡ r.snippet)

add_source-Kept :
    (provider : String) (idx : ℕ) (m : Merger) (i : ℕ) (r : Row)
    → Kept r (get_elem? m.rows i)
    → Kept r (get_elem? (add_source provider idx m).1.rows i)
unfolding add_source
add_source-Kept provider idx m i r h = elim (Option-cases (get_elem? m.rows idx)) [
  | inl gone ↦ rw (gone, add_source, Kept) h
  | inr (s, found) ↦
      ground (arith, get_elem?-set m.rows idx i (record s { sources = s.sources ++ provider ∷ [] }))
]

append_row-Kept :
    (provider key : String) (row : Row) (m : Merger) (i : ℕ) (r : Row)
    → Kept r (get_elem? m.rows i)
    → Kept r (get_elem? (append_row provider key row m).rows i)
unfolding append_row
append_row-Kept provider key row m i r h = ground (
  arith,
  get_elem?-concat m.rows (record row { sources = provider ∷ [] }) i,
  get_elem?-length m.rows,
)

module _ (link_key : String → String) where
  add_row-Kept :
      (provider : String) (row : Row) (m : Merger) (i : ℕ) (r : Row)
      → Kept r (get_elem? m.rows i)
      → Kept r (get_elem? (add_row link_key provider row m).1.rows i)
  unfolding add_row
  add_row-Kept provider row m i r h =
      let seen = record m { collected = m.collected + 1 } in
      elim (Option-cases (lookup (link_key row.link) m.by_key)) [
        | inl new ↦
            rw (new, add_row, Kept) (append_row-Kept provider (link_key row.link) row seen i r h)
        | inr (idx, known) ↦ rw (known, add_row, Kept) (add_source-Kept provider idx seen i r h)
      ]

  -- The first occurrence of a link wins: a row keeps its place, its link, its title and its snippet,
  -- whatever is added later.
  add-Kept :
      (provider : String) (rows : List Row) (m : Merger) (i : ℕ) (r : Row)
      → Kept r (get_elem? m.rows i)
      → Kept r (get_elem? (add link_key provider rows m).1.rows i)
  unfolding add
  add-Kept provider [] m i r h = h
  add-Kept provider (row ∷ rows) m i r h =
      add-Kept provider rows (add_row link_key provider row m).1 i r
        (add_row-Kept provider row m i r h)
