-- ===== src/Rest/Links.antt =====
-- The rows that the drivers of the table of internal/providers/rest.go extract.
use serpent_seek.Prelude.{
  String, ◌≡◌, ap, sym, ◌∙◌, inl, inr, false, Option, some, List, [], ◌∷◌, ◌++◌, Dict, All, ◌==◌,
  arith, Bool-cases, Option-cases, or_else,
}
use serpent_seek.Models.{Row}
use serpent_seek.Rest.Json.{
  Json, Floats, map_of, first_string, to_row, rows_of, collect_rows, linked, row_of,
}
use serpent_seek.Rest.Spec.{Extracted, extracted, panics}
use serpent_seek.Rest.Extracts.{rows_in}

abbrev pub IsLinked : Row → Type 0
IsLinked row = (row.link == "") ≡ false

-- what an extraction answers has links only
abbrev pub IsSound : Extracted → Type 0
IsSound (extracted rows) = All IsLinked rows
IsSound panics = Unit

-- a conversion of an object that gives rows with links
abbrev pub Converts : {F : Type 0} → (Dict (Json F) → Option Row) → Type 0
Converts {F = F} convert = (m : Dict (Json F)) (row : Row) → convert m ≡ some row → IsLinked row

pub All-append : (xs ys : List Row) → All IsLinked xs → All IsLinked ys → All IsLinked (xs ++ ys)
All-append [] ys good more = more
All-append (x ∷ xs) ys (here, good) more = (here, All-append xs ys good more)

pub linked_lem :
    (link title snippet : String) (row : Row) → linked link title snippet ≡ some row → IsLinked row
unfolding linked
linked_lem link title snippet row e = elim (Bool-cases (link == "")) [
  | inl blank ↦ absurd (ground (arith, e, blank))
  | inr here ↦
      let given : some (row_of link title snippet) ≡ some row = rw here at e in
      let same : (row_of link title snippet).link ≡ row.link =
        ap (λ o. (or_else o row).link) given in
      ap (λ l. l == "") (sym same) ∙ here
]

module _ {F : Type 0} (go : Floats F) where
  pub to_row_lem :
      (links snippets : List String) (title : String)
      → Converts (λ m. to_row go m links title snippets)
  unfolding to_row
  to_row_lem links snippets title m row e =
      linked_lem (first_string go m links) (first_string go m (title ∷ []))
        (first_string go m snippets) row e

  pub rows_of_lem :
      (convert : Dict (Json F) → Option Row) (vs : List (Json F))
      → Converts convert
      → All IsLinked (rows_of go convert vs)
  unfolding rows_of
  rows_of_lem convert [] good = tt
  rows_of_lem convert (v ∷ vs) good =
      let rest = rows_of_lem convert vs good in
      elim (Option-cases (map_of (some v))) [
        | inl none_ ↦ rw (none_, All) rest
        | inr (m, e) ↦ elim (Option-cases (convert m)) [
          | inl skipped ↦ rw (e, skipped, All) rest
          | inr (row, given) ↦ rw (e, given, All) (good m row given, rest)
        ]
      ]

  pub collect_rows_lem :
      (vs : List (Json F)) (links snippets : List String) (title : String)
      → All IsLinked (collect_rows go vs links title snippets)
  unfolding collect_rows
  collect_rows_lem vs links snippets title =
      rows_of_lem (λ m. to_row go m links title snippets) vs (to_row_lem links snippets title)

  pub rows_in_lem :
      (rows : Dict (Json F) → List Row) (vs : List (Json F))
      → ((m : Dict (Json F)) → All IsLinked (rows m))
      → All IsLinked (rows_in go rows vs)
  unfolding rows_in
  rows_in_lem rows [] good = tt
  rows_in_lem rows (v ∷ vs) good =
      let rest = rows_in_lem rows vs good in
      elim (Option-cases (map_of (some v))) [
        | inl none_ ↦ rw (none_, All) rest
        | inr (m, e) ↦ rw (e, All) (All-append (rows m) (rows_in go rows vs) (good m) rest)
      ]
