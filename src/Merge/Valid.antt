-- ===== src/Merge/Valid.antt =====
-- The index of a merger, its rows and its count.
use serpent_seek.Prelude.{
  ℕ, suc, ◌+◌, ◌≤◌, String, ◌≡◌, sym, ap, ◌∙◌, Option, none, some, List, [], ◌∷◌, inl, inr, ◌++◌,
  length, get_elem?, arith, lookup, lookup-insert, length-append, length-set, get_elem?-concat,
  get_elem?-set, get_elem?-length, Option-cases, eq_iff,
}
use mathlib.Core.Option.{some-injective}
use serpent_seek.Models.{Row}
use serpent_seek.Merge.{
  Merger, new_merger, add_source, append_row, add_row, add, duplicates_removed,
}

module _ (link_key : String → String) where
  abbrev pub HasKey : String → Option Row → Type 0
  HasKey k none = ⊥
  HasKey k (some r) = link_key r.link ≡ k

  pub record IsValid (m : Merger) : Type 0 where
    -- each row is indexed under its key
    pub indexed :
        (i : ℕ) (r : Row) → get_elem? m.rows i ≡ some r → lookup (link_key r.link) m.by_key ≡ some i
    -- each entry of the index leads to a row with that key
    pub keyed : (k : String) (i : ℕ) → lookup k m.by_key ≡ some i → HasKey k (get_elem? m.rows i)
    pub counted : length m.rows ≤ m.collected

  pub IsValid-new : IsValid new_merger
  unfolding lookup
  IsValid-new = record { indexed = λ i r h. cc; keyed = λ k i h. cc; counted = omega arith }

  add_source-IsValid :
      (provider : String) (idx : ℕ) (m : Merger) → IsValid m → IsValid (add_source provider idx m).1
  unfolding add_source
  add_source-IsValid provider idx m v = elim (Option-cases (get_elem? m.rows idx)) [
    | inl gone ↦ rw (gone, add_source) v
    | inr (s, found) ↦
        let s' : Row = record s { sources = s.sources ++ provider ∷ [] } in
        record {
          indexed =
              λ i r h. ground (arith, get_elem?-set m.rows idx i s', v.indexed i r, v.indexed i s);
          keyed = λ k i h. ground (arith, get_elem?-set m.rows idx i s', v.keyed k i);
          counted = ground (arith, length-set m.rows idx s', v.counted);
        }
  ]

  append_row-IsValid :
      (provider : String) (row : Row) (m : Merger)
      → IsValid m
      → lookup (link_key row.link) m.by_key ≡ none
      → suc (length m.rows) ≤ m.collected
      → IsValid (append_row provider (link_key row.link) row m)
  unfolding append_row
  append_row-IsValid provider row m v new room =
      let row' : Row = record row { sources = provider ∷ [] } in
      record {
        indexed = λ i r h. ground (
          arith,
          get_elem?-concat m.rows row' i,
          v.indexed i r,
          lookup-insert (link_key row.link) (link_key r.link) (length m.rows) m.by_key,
          eq_iff (link_key row.link) (link_key r.link),
        );
        keyed = λ k i h. ground (
          arith,
          get_elem?-concat m.rows row' i,
          get_elem?-length m.rows,
          v.keyed k i,
          lookup-insert (link_key row.link) k (length m.rows) m.by_key,
          eq_iff (link_key row.link) k,
        );
        counted = omega (arith, length-append m.rows (row' ∷ []));
      }

  add_row-IsValid :
      (provider : String) (row : Row) (m : Merger)
      → IsValid m
      → IsValid (add_row link_key provider row m).1
  unfolding add_row
  add_row-IsValid provider row m v =
      let seen = record m { collected = m.collected + 1 } in
      let v' : IsValid seen = record {
        indexed = v.indexed;
        keyed = v.keyed;
        counted = omega (arith, v.counted);
      } in
      elim (Option-cases (lookup (link_key row.link) m.by_key)) [
        | inl new ↦
            rw (new, add_row)
              (append_row-IsValid provider row seen v' new (omega (arith, v.counted)))
        | inr (idx, known) ↦ rw (known, add_row) (add_source-IsValid provider idx seen v')
      ]

  -- Adding rows keeps the index and the rows in agreement: every row is found under its own key, and
  -- every key leads to a row with that key.
  pub add-IsValid :
      (provider : String) (rows : List Row) (m : Merger)
      → IsValid m
      → IsValid (add link_key provider rows m).1
  unfolding add
  add-IsValid provider [] m v = v
  add-IsValid provider (row ∷ rows) m v =
      add-IsValid provider rows (add_row link_key provider row m).1
        (add_row-IsValid provider row m v)

  -- After adding rows to a valid merger, two rows whose links reduce to one key are one row.
  unique_links :
      (provider : String) (rows : List Row) (m : Merger) (i j : ℕ) (r s : Row)
      → IsValid m
      → get_elem? (add link_key provider rows m).1.rows i ≡ some r
      → get_elem? (add link_key provider rows m).1.rows j ≡ some s
      → link_key r.link ≡ link_key s.link
      → i ≡ j
  unique_links provider rows m i j r s v at_i at_j same =
      let v' = add-IsValid provider rows m v in
      let by_key = (add link_key provider rows m).1.by_key in
      some-injective i j
        (sym (v'.indexed i r at_i) ∙ ap (λ k. lookup k by_key) same ∙ v'.indexed j s at_j)

  collected-add_row :
      (provider : String) (row : Row) (m : Merger)
      → (add_row link_key provider row m).1.collected ≡ m.collected + 1
  unfolding add_row add_source append_row
  collected-add_row provider row m = ground arith

  -- Every row that is added is counted, and is kept or removed as a duplicate.
  pub collected-add :
      (provider : String) (rows : List Row) (m : Merger)
      → (add link_key provider rows m).1.collected ≡ m.collected + length rows
  unfolding add
  collected-add provider [] m = omega arith
  collected-add provider (row ∷ rows) m = omega (
    arith,
    collected-add provider rows (add_row link_key provider row m).1,
    collected-add_row provider row m,
  )

  -- After adding rows to a valid merger, the distinct rows and the removed duplicates together are
  -- the rows collected before and the rows added.
  pub add_accounts :
      (provider : String) (rows : List Row) (m : Merger)
      → IsValid m
      → length (add link_key provider rows m).1.rows
          + duplicates_removed (add link_key provider rows m).1
        ≡ m.collected + length rows
  unfolding duplicates_removed
  add_accounts provider rows m v =
      omega (arith, collected-add provider rows m, (add-IsValid provider rows m v).counted)
