-- ===== src/Rest/Extracts.antt =====
-- The extractions of the table of internal/providers/rest.go: the drivers of search engines and of AI search.
use serpent_seek.Prelude.{
  String, not, ◌&&◌, Option, none, some, List, [], ◌∷◌, ◌++◌, Dict, map, lookup, ◌==◌,
  if◌then◌else◌, join, has_prefix,
}
use serpent_seek.Models.{Row}
use serpent_seek.Rest.Json.{
  linked, Json, Floats, text, list_of, map_of, array_at, as_string, first_string, to_row, rows_of,
  collect_rows,
}
use serpent_seek.Rest.Texts.{truncate_string}
use serpent_seek.Rest.Spec.{Extracted, extracted, panics}

-- b for an empty a
abbrev pub or_text : String → String → String
or_text a b = if a == "" then b else a

module _ {F : Type 0} (go : Floats F) where
  -- asString(m[key])
  abbrev pub string_at : String → Dict (Json F) → String
  string_at key m = as_string go (lookup key m)

  -- the first element of the array m[key], as a text
  unfoldable pub head_string : String → Dict (Json F) → String
  head_string key m = elim (list_of (lookup key m)) [ [] ↦ "" | v ∷ vs ↦ as_string go (some v) ]

  -- the first text of the object m[key]
  unfoldable pub nested_string : String → String → Dict (Json F) → String
  nested_string key inner m = elim (map_of (lookup key m)) [
    | none ↦ ""
    | some n ↦ first_string go n (inner ∷ [])
  ]

  -- the status in search_metadata
  unfoldable pub metadata_status : Dict (Json F) → Option String
  metadata_status body = elim (map_of (lookup "search_metadata" body)) [
    | none ↦ none
    | some meta ↦ some (string_at "status" meta)
  ]

  abbrev pub organic_results : Dict (Json F) → List Row
  organic_results body =
      collect_rows go (list_of (lookup "organic_results" body)) ("link" ∷ "url" ∷ []) "title"
        ("snippet" ∷ [])

  unfoldable pub extract_serpapi : Dict (Json F) → Extracted
  extract_serpapi body = elim (metadata_status body) [
    | none ↦ extracted (organic_results body)
    | some status ↦ if status == "Error" then extracted [] else extracted (organic_results body)
  ]

  unfoldable pub extract_searchapi : Dict (Json F) → Extracted
  extract_searchapi body = elim (metadata_status body) [
    | none ↦ extracted (organic_results body)
    | some status ↦
        if not (status == "Success") && not (status == "")
        then extracted []
        else extracted (organic_results body)
  ]

  -- the rows of each object of an array, one after the other
  unfoldable pub rows_in : (Dict (Json F) → List Row) → List (Json F) → List Row
  rows_in rows [] = []
  rows_in rows (v ∷ vs) =
      let rest = rows_in rows vs in elim (map_of (some v)) [ none ↦ rest | some m ↦ rows m ++ rest ]

  unfoldable pub organic_row : Dict (Json F) → Option Row
  organic_row m =
      if string_at "type" m == "organic"
      then to_row go m ("url" ∷ []) "title" ("description" ∷ "extended_snippet" ∷ [])
      else none

  unfoldable pub extract_dataforseo : Dict (Json F) → Extracted
  extract_dataforseo body = extracted (
      rows_in
        (λ task.
          rows_in (λ result. rows_of go organic_row (list_of (lookup "items" result)))
            (list_of (lookup "result" task)))
        (list_of (lookup "tasks" body)))

  unfoldable pub youcom_row : Dict (Json F) → Option Row
  youcom_row m =
      let snippet = or_text (first_string go m ("description" ∷ [])) (head_string "snippets" m) in
      to_row go
        (("url", text (first_string go m ("url" ∷ [])))
          ∷ ("title", text (first_string go m ("title" ∷ [])))
          ∷ ("snippet", text snippet)
          ∷ [])
        ("url" ∷ []) "title" ("snippet" ∷ [])

  -- the assertion that `results` is an object is not checked
  unfoldable pub extract_youcom : Dict (Json F) → Extracted
  extract_youcom body = elim (map_of (lookup "results" body)) [
    | none ↦ panics
    | some results ↦ extracted (
        rows_of go youcom_row (list_of (lookup "web" results))
        ++ rows_of go youcom_row (list_of (lookup "news" results)))
  ]

  unfoldable pub extract_firecrawl : Dict (Json F) → Extracted
  extract_firecrawl body = elim (map_of (lookup "data" body)) [
    | none ↦ extracted []
    | some inner ↦ extracted (
        collect_rows go (list_of (lookup "web" inner)) ("url" ∷ []) "title"
          ("description" ∷ "markdown" ∷ []))
  ]

  unfoldable pub extract_mojeek : Dict (Json F) → Extracted
  extract_mojeek body =
      let rows =
        collect_rows go (array_at body ("response" ∷ "results" ∷ [])) ("url" ∷ []) "title"
          ("desc" ∷ []) in
      elim (map_of (lookup "response" body)) [
        | none ↦ extracted rows
        | some response ↦
            if has_prefix (string_at "status" response) "ERROR"
            then extracted []
            else extracted rows
      ]

  unfoldable pub exa_row : Dict (Json F) → Option Row
  exa_row m =
      let snippet = or_text (head_string "highlights" m) (
        or_text (first_string go m ("summary" ∷ []))
          (truncate_string (first_string go m ("text" ∷ [])) 400)) in
      linked (first_string go m ("url" ∷ [])) (first_string go m ("title" ∷ [])) snippet

  unfoldable pub extract_exa : Dict (Json F) → Extracted
  extract_exa body = extracted (rows_of go exa_row (list_of (lookup "results" body)))

  unfoldable pub parallel_row : Dict (Json F) → Option Row
  parallel_row m =
      let parts = map (λ v. as_string go (some v)) (list_of (lookup "excerpts" m)) in
      linked (first_string go m ("url" ∷ [])) (first_string go m ("title" ∷ []))
        (truncate_string (join parts " … ") 400)

  unfoldable pub extract_parallel : Dict (Json F) → Extracted
  extract_parallel body = extracted (rows_of go parallel_row (list_of (lookup "results" body)))

  abbrev pub references : List (Json F) → List Row
  references vs = collect_rows go vs ("url" ∷ []) "title" ("snippet" ∷ [])

  unfoldable pub extract_kagi : Dict (Json F) → Extracted
  extract_kagi body = elim (map_of (lookup "data" body)) [
    | some inner ↦ extracted (references (list_of (lookup "references" inner)))
    | none ↦ extracted (references (list_of (lookup "data" body)))
  ]
