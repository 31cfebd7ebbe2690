-- ===== src/Rest/Papers.antt =====
-- The extractions of the table of internal/providers/rest.go: the drivers of one field and of enterprise
-- engines.
use serpent_seek.Prelude.{
  ℕ, zero, suc, ◌+◌, pos, negsuc, String, Option, none, some, List, [], ◌∷◌, Dict, lookup, ltb, eqb,
  ◌==◌, if◌then◌else◌, trim_space, append_text, join, has_prefix, length,
}
use serpent_seek.Models.{Row}
use serpent_seek.Rest.Json.{
  linked, Json, Floats, list_of, map_of, array_at, as_string, as_int, first_string, rows_of,
}
use serpent_seek.Rest.Texts.{truncate_string, strip_html}
use serpent_seek.Rest.Params.{param, default_str}
use serpent_seek.Rest.Spec.{Extracted, extracted, panics}
use serpent_seek.Rest.Extracts.{or_text, string_at, head_string, nested_string}

-- "https://doi.org/" in front of a text that is no link
abbrev pub doi_link : String → String
doi_link doi = append_text "https://doi.org/" doi

abbrev pub as_link : String → String
as_link doi = if has_prefix doi "http" then doi else doi_link doi

-- the words of an abstract by their positions; a later word replaces an earlier one
abbrev pub Positions : Type 0
Positions = List (ℕ × String)

unfoldable pub word_at : ℕ → Positions → Option String
word_at n [] = none
word_at n ((m, w) ∷ rest) = if eqb m n then some w else word_at n rest

unfoldable pub highest : Positions → ℕ
highest [] = 0
highest ((m, w) ∷ rest) = let high = highest rest in if ltb high m then m else high

-- the words at the positions from i on
unfoldable pub words_from : ℕ → ℕ → Positions → List String
words_from zero i at = []
words_from (suc n) i at =
    let rest = words_from n (i + 1) at in elim (word_at i at) [ none ↦ rest | some w ↦ w ∷ rest ]

-- a result with its row in front, if it has one
unfoldable pub with_row : Option Row → Extracted → Extracted
with_row row panics = panics
with_row none (extracted rows) = extracted rows
with_row (some row) (extracted rows) = extracted (row ∷ rows)

module _ {F : Type 0} (go : Floats F) where
  unfoldable pub place_word : String → List (Json F) → Positions → Positions
  place_word word [] at = at
  place_word word (v ∷ vs) at = elim (as_int go v) [
    | pos n ↦ place_word word vs ((n, word) ∷ at)
    | negsuc n ↦ place_word word vs at
  ]

  unfoldable pub place_words : Dict (Json F) → Positions → Positions
  place_words [] at = at
  place_words ((word, v) ∷ index) at = place_words index (place_word word (list_of (some v)) at)

  -- openAlexAbstract, for the order of the map's words; none is a panic of make
  unfoldable pub open_alex_abstract : Dict (Json F) → Option String
  open_alex_abstract m = elim (map_of (lookup "abstract_inverted_index" m)) [
    | none ↦ some ""
    | some index ↦
        let at = place_words index [] in
        if eqb (length at) 0
        then some ""
        else if ltb go.max_texts (highest at + 1)
        then none
        else some (join (words_from (highest at + 1) 0 at) " ")
  ]

  unfoldable pub open_alex_link : Dict (Json F) → String
  open_alex_link m =
      let doi = first_string go m ("doi" ∷ []) in
      if doi == ""
      then or_text (nested_string go "primary_location" "landing_page_url" m) (string_at go "id" m)
      else as_link doi

  unfoldable pub open_alex_row : Dict (Json F) → Extracted → Extracted
  open_alex_row m rest =
      let title =
        or_text (first_string go m ("title" ∷ [])) (first_string go m ("display_name" ∷ [])) in
      if open_alex_link m == "" then rest else elim (open_alex_abstract m) [
        | none ↦ panics
        | some snippet ↦ with_row (linked (open_alex_link m) title snippet) rest
      ]

  -- an item of the results, which may not be an object
  unfoldable pub open_alex_item : Option (Dict (Json F)) → Extracted → Extracted
  open_alex_item none rest = rest
  open_alex_item (some m) rest = open_alex_row m rest

  -- the loop over the results
  unfoldable pub open_alex_rows : List (Json F) → Extracted
  open_alex_rows [] = extracted []
  open_alex_rows (v ∷ vs) = let rest = open_alex_rows vs in open_alex_item (map_of (some v)) rest

  unfoldable pub extract_openalex : Dict (Json F) → Extracted
  extract_openalex body = open_alex_rows (list_of (lookup "results" body))

  unfoldable pub external_doi : Dict (Json F) → String
  external_doi m = elim (map_of (lookup "externalIds" m)) [
    | none ↦ ""
    | some ext ↦ let doi = string_at go "DOI" ext in if doi == "" then "" else as_link doi
  ]

  unfoldable pub semantic_row : Dict (Json F) → Option Row
  semantic_row m =
      linked (or_text (first_string go m ("url" ∷ [])) (external_doi m))
        (first_string go m ("title" ∷ []))
        (or_text (first_string go m ("abstract" ∷ [])) (nested_string go "tldr" "text" m))

  unfoldable pub extract_semanticscholar : Dict (Json F) → Extracted
  extract_semanticscholar body = extracted (rows_of go semantic_row (list_of (lookup "data" body)))

  -- the first number of the first of the date-parts
  unfoldable pub published_year : Dict (Json F) → String
  published_year m = elim (map_of (lookup "published" m)) [
    | none ↦ ""
    | some dp ↦ elim (list_of (lookup "date-parts" dp)) [
      | [] ↦ ""
      | v ∷ vs ↦ elim (list_of (some v)) [ [] ↦ "" | year ∷ more ↦ as_string go (some year) ]
    ]
  ]

  unfoldable pub crossref_row : Dict (Json F) → Option Row
  crossref_row m =
      let doi = string_at go "DOI" m in
      let link = or_text (string_at go "URL" m) (if doi == "" then "" else doi_link doi) in
      let container = head_string go "container-title" m in
      let source = trim_space (append_text container (append_text " " (published_year m))) in
      linked link (head_string go "title" m) (or_text (first_string go m ("abstract" ∷ [])) source)

  unfoldable pub extract_crossref : Dict (Json F) → Extracted
  extract_crossref body =
      extracted (rows_of go crossref_row (array_at body ("message" ∷ "items" ∷ [])))

  -- the first fragment that is not empty
  unfoldable pub first_fragment : List (Json F) → String
  first_fragment [] = ""
  first_fragment (v ∷ vs) =
      let rest = first_fragment vs in
      elim (map_of (some v)) [
        | none ↦ rest
        | some m ↦ or_text (first_string go m ("fragment" ∷ [])) rest
      ]

  -- githubTextMatch
  unfoldable pub github_text_match : Dict (Json F) → String
  github_text_match m = first_fragment (list_of (lookup "text_matches" m))

  unfoldable pub repository_title : Dict (Json F) → String
  repository_title m =
      let full = nested_string go "repository" "full_name" m in
      let path = first_string go m ("path" ∷ []) in
      if full == ""
      then ""
      else if path == ""
      then full
      else append_text full (append_text "/" path)

  unfoldable pub github_row : Dict (Json F) → Option Row
  github_row m =
      let title = or_text (first_string go m ("full_name" ∷ [])) (
        or_text (repository_title m)
          (or_text (first_string go m ("name" ∷ [])) (first_string go m ("title" ∷ [])))) in
      let snippet =
        or_text (first_string go m ("description" ∷ []))
          (or_text (first_string go m ("body" ∷ [])) (github_text_match m)) in
      linked (first_string go m ("html_url" ∷ [])) title snippet

  unfoldable pub extract_github : Dict (Json F) → Extracted
  extract_github body = extracted (rows_of go github_row (list_of (lookup "items" body)))

  unfoldable pub hn_row : Dict (Json F) → Option Row
  hn_row m =
      let item = append_text "https://news.ycombinator.com/item?id=" (string_at go "objectID" m) in
      linked (or_text (string_at go "url" m) item)
        (or_text (first_string go m ("title" ∷ [])) (first_string go m ("story_title" ∷ [])))
        (or_text (first_string go m ("story_text" ∷ [])) (first_string go m ("comment_text" ∷ [])))

  unfoldable pub extract_hn : Dict (Json F) → Extracted
  extract_hn body = extracted (rows_of go hn_row (list_of (lookup "hits" body)))

  unfoldable pub stackexchange_row : Dict (Json F) → Option Row
  stackexchange_row m =
      let question = append_text "https://stackoverflow.com/q/" (string_at go "question_id" m) in
      linked (or_text (first_string go m ("link" ∷ [])) question) (first_string go m ("title" ∷ []))
        (truncate_string (strip_html (first_string go m ("body" ∷ []))) 400)

  unfoldable pub extract_stackexchange : Dict (Json F) → Extracted
  extract_stackexchange body =
      extracted (rows_of go stackexchange_row (list_of (lookup "items" body)))

  -- the text of the first of the captions
  unfoldable pub caption : Dict (Json F) → String
  caption m = elim (list_of (lookup "@search.captions" m)) [
    | [] ↦ ""
    | v ∷ vs ↦ elim (map_of (some v)) [ none ↦ "" | some c ↦ first_string go c ("text" ∷ []) ]
  ]

  unfoldable pub azure_row : Dict String → Dict (Json F) → Option Row
  azure_row params m =
      let title_field = default_str (param "title_field" params) "title" in
      let url_field = default_str (param "url_field" params) "url" in
      let snippet_field = default_str (param "snippet_field" params) "description" in
      linked (string_at go url_field m) (string_at go title_field m)
        (truncate_string (or_text (caption m) (string_at go snippet_field m)) 400)

  unfoldable pub extract_azure : Dict (Json F) → Dict String → Extracted
  extract_azure body params =
      extracted (rows_of go (azure_row params) (list_of (lookup "value" body)))

  unfoldable pub vectara_row : Dict (Json F) → Option Row
  vectara_row m = elim (map_of (lookup "document_metadata" m)) [
    | none ↦ none
    | some meta ↦
        linked (first_string go meta ("url" ∷ "source" ∷ [])) (first_string go meta ("title" ∷ []))
          (truncate_string (first_string go m ("text" ∷ [])) 400)
  ]

  unfoldable pub extract_vectara : Dict (Json F) → Extracted
  extract_vectara body = extracted (rows_of go vectara_row (list_of (lookup "search_results" body)))
