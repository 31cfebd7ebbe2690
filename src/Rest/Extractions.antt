-- ===== src/Rest/Extractions.antt =====
-- The extractions of the table of internal/providers/rest.go give rows with links.
use serpent_seek.Prelude.{
  String, inl, inr, false, not, ◌&&◌, ◌≡◌, Option, none, some, List, [], ◌∷◌, Dict, All, ◌==◌,
  arith, Bool-cases, Option-cases, lookup, has_prefix,
}
use serpent_seek.Rest.Json.{Json, Floats, list_of, map_of, array_at, linked}
use serpent_seek.Rest.Extracts.{
  string_at, metadata_status, organic_results, organic_row, references, youcom_row, exa_row,
  parallel_row, extract_serpapi, extract_searchapi, extract_dataforseo, extract_youcom,
  extract_firecrawl, extract_mojeek, extract_exa, extract_parallel, extract_kagi,
}
use serpent_seek.Rest.Papers.{
  open_alex_link, open_alex_abstract, with_row, open_alex_item, open_alex_row, open_alex_rows,
  semantic_row, crossref_row, github_row, hn_row, stackexchange_row, azure_row, vectara_row,
  extract_openalex, extract_semanticscholar, extract_crossref, extract_github, extract_hn,
  extract_stackexchange, extract_azure, extract_vectara,
}
use serpent_seek.Rest.Spec.{Extracted, extracted, panics}
use serpent_seek.Rest.Links.{
  IsLinked, IsSound, Converts, linked_lem, to_row_lem, rows_of_lem, collect_rows_lem, rows_in_lem,
  All-append,
}

module _ {F : Type 0} (go : Floats F) where
  organic_row_lem : Converts (organic_row go)
  unfolding organic_row
  organic_row_lem m row e = elim (Bool-cases (string_at go "type" m == "organic")) [
    | inl organic ↦
        to_row_lem go ("url" ∷ []) ("description" ∷ "extended_snippet" ∷ []) "title" m row
          (rw organic at e)
    | inr other ↦ absurd (ground (arith, other, e))
  ]

  vectara_row_lem : Converts (vectara_row go)
  unfolding vectara_row linked
  vectara_row_lem m row e = elim (Option-cases (map_of (lookup "document_metadata" m))) [
    | inl missing ↦ absurd (ground (arith, missing, e))
    | inr (meta, at) ↦ linked_lem _ _ _ row (rw (at, vectara_row) at e)
  ]

  organic_results_lem : (body : Dict (Json F)) → All IsLinked (organic_results go body)
  organic_results_lem body =
      collect_rows_lem go (list_of (lookup "organic_results" body)) ("link" ∷ "url" ∷ [])
        ("snippet" ∷ []) "title"

  pub extract_serpapi_lem : (body : Dict (Json F)) → IsSound (extract_serpapi go body)
  unfolding extract_serpapi
  extract_serpapi_lem body = elim (Option-cases (metadata_status go body)) [
    | inl missing ↦ rw (missing, IsSound) (organic_results_lem body)
    | inr (status, at) ↦ elim (Bool-cases (status == "Error")) [
      | inl error ↦ rw (at, error, IsSound) tt
      | inr good ↦ rw (at, good, IsSound) (organic_results_lem body)
    ]
  ]

  pub extract_searchapi_lem : (body : Dict (Json F)) → IsSound (extract_searchapi go body)
  unfolding extract_searchapi
  extract_searchapi_lem body = elim (Option-cases (metadata_status go body)) [
    | inl missing ↦ rw (missing, IsSound) (organic_results_lem body)
    | inr (status, at) ↦ elim (Bool-cases (not (status == "Success") && not (status == ""))) [
      | inl error ↦ rw (at, error, IsSound) tt
      | inr good ↦ rw (at, good, IsSound) (organic_results_lem body)
    ]
  ]

  pub extract_dataforseo_lem : (body : Dict (Json F)) → IsSound (extract_dataforseo go body)
  unfolding extract_dataforseo
  extract_dataforseo_lem body = rows_in_lem go _ (list_of (lookup "tasks" body)) (λ task.
      rows_in_lem go _ (list_of (lookup "result" task)) (λ result.
        rows_of_lem go (organic_row go) (list_of (lookup "items" result)) organic_row_lem))

  pub extract_youcom_lem : (body : Dict (Json F)) → IsSound (extract_youcom go body)
  unfolding extract_youcom youcom_row
  extract_youcom_lem body = elim (Option-cases (map_of (lookup "results" body))) [
    | inl missing ↦ rw (missing, IsSound) tt
    | inr (results, at) ↦
        let section = λ (name : String).
          rows_of_lem go (youcom_row go) (list_of (lookup name results))
            (λ m row e. to_row_lem go ("url" ∷ []) ("snippet" ∷ []) "title" _ row e) in
        rw (at, IsSound) (All-append _ _ (section "web") (section "news"))
  ]

  pub extract_firecrawl_lem : (body : Dict (Json F)) → IsSound (extract_firecrawl go body)
  unfolding extract_firecrawl
  extract_firecrawl_lem body = elim (Option-cases (map_of (lookup "data" body))) [
    | inl missing ↦ rw (missing, IsSound) tt
    | inr (inner, at) ↦
        rw (at, IsSound)
          (collect_rows_lem go (list_of (lookup "web" inner)) ("url" ∷ [])
            ("description" ∷ "markdown" ∷ []) "title")
  ]

  pub extract_mojeek_lem : (body : Dict (Json F)) → IsSound (extract_mojeek go body)
  unfolding extract_mojeek
  extract_mojeek_lem body =
      let rows =
        collect_rows_lem go (array_at body ("response" ∷ "results" ∷ [])) ("url" ∷ []) ("desc" ∷ [])
          "title" in
      elim (Option-cases (map_of (lookup "response" body))) [
        | inl missing ↦ rw (missing, IsSound) rows
        | inr (response, at) ↦
            elim (Bool-cases (has_prefix (string_at go "status" response) "ERROR")) [
              | inl error ↦ rw (at, error, IsSound) tt
              | inr good ↦ rw (at, good, IsSound) rows
            ]
      ]

  pub extract_exa_lem : (body : Dict (Json F)) → IsSound (extract_exa go body)
  unfolding extract_exa exa_row
  extract_exa_lem body =
      rows_of_lem go (exa_row go) (list_of (lookup "results" body))
        (λ m row e. linked_lem _ _ _ row e)

  pub extract_parallel_lem : (body : Dict (Json F)) → IsSound (extract_parallel go body)
  unfolding extract_parallel parallel_row
  extract_parallel_lem body =
      rows_of_lem go (parallel_row go) (list_of (lookup "results" body))
        (λ m row e. linked_lem _ _ _ row e)

  references_lem : (vs : List (Json F)) → All IsLinked (references go vs)
  references_lem vs = collect_rows_lem go vs ("url" ∷ []) ("snippet" ∷ []) "title"

  pub extract_kagi_lem : (body : Dict (Json F)) → IsSound (extract_kagi go body)
  unfolding extract_kagi
  extract_kagi_lem body = elim (Option-cases (map_of (lookup "data" body))) [
    | inl missing ↦ rw (missing, IsSound) (references_lem (list_of (lookup "data" body)))
    | inr (inner, at) ↦ rw (at, IsSound) (references_lem (list_of (lookup "references" inner)))
  ]

  with_row-IsSound :
      (link title snippet : String) (rest : Extracted)
      → (link == "") ≡ false
      → IsSound rest
      → IsSound (with_row (linked link title snippet) rest)
  unfolding with_row linked IsSound
  with_row-IsSound link title snippet panics filled sound = tt
  with_row-IsSound link title snippet (extracted rows) filled sound = rw filled (filled, sound)

  open_alex_row-IsSound :
      (m : Dict (Json F)) (rest : Extracted) → IsSound rest → IsSound (open_alex_row go m rest)
  unfolding open_alex_row
  open_alex_row-IsSound m rest sound = elim (Bool-cases (open_alex_link go m == "")) [
    | inl missing ↦ rw missing sound
    | inr filled ↦ elim (Option-cases (open_alex_abstract go m)) [
      | inl panic ↦ rw (filled, panic, IsSound) tt
      | inr (snippet, written) ↦
          rw (filled, written) (with_row-IsSound _ _ snippet rest filled sound)
    ]
  ]

  open_alex_item-IsSound :
      (o : Option (Dict (Json F))) (rest : Extracted)
      → IsSound rest
      → IsSound (open_alex_item go o rest)
  unfolding open_alex_item
  open_alex_item-IsSound none rest sound = sound
  open_alex_item-IsSound (some m) rest sound = open_alex_row-IsSound m rest sound

  open_alex_rows-IsSound : (vs : List (Json F)) → IsSound (open_alex_rows go vs)
  unfolding open_alex_rows
  open_alex_rows-IsSound [] = tt
  open_alex_rows-IsSound (v ∷ vs) =
      open_alex_item-IsSound (map_of (some v)) (open_alex_rows go vs) (open_alex_rows-IsSound vs)

  pub extract_openalex_lem : (body : Dict (Json F)) → IsSound (extract_openalex go body)
  unfolding extract_openalex
  extract_openalex_lem body = open_alex_rows-IsSound (list_of (lookup "results" body))

  pub extract_semanticscholar_lem :
      (body : Dict (Json F)) → IsSound (extract_semanticscholar go body)
  unfolding extract_semanticscholar semantic_row
  extract_semanticscholar_lem body =
      rows_of_lem go (semantic_row go) (list_of (lookup "data" body))
        (λ m row e. linked_lem _ _ _ row e)

  pub extract_crossref_lem : (body : Dict (Json F)) → IsSound (extract_crossref go body)
  unfolding extract_crossref crossref_row
  extract_crossref_lem body =
      rows_of_lem go (crossref_row go) (array_at body ("message" ∷ "items" ∷ []))
        (λ m row e. linked_lem _ _ _ row e)

  pub extract_github_lem : (body : Dict (Json F)) → IsSound (extract_github go body)
  unfolding extract_github github_row
  extract_github_lem body =
      rows_of_lem go (github_row go) (list_of (lookup "items" body))
        (λ m row e. linked_lem _ _ _ row e)

  pub extract_hn_lem : (body : Dict (Json F)) → IsSound (extract_hn go body)
  unfolding extract_hn hn_row
  extract_hn_lem body =
      rows_of_lem go (hn_row go) (list_of (lookup "hits" body)) (λ m row e. linked_lem _ _ _ row e)

  pub extract_stackexchange_lem : (body : Dict (Json F)) → IsSound (extract_stackexchange go body)
  unfolding extract_stackexchange stackexchange_row
  extract_stackexchange_lem body =
      rows_of_lem go (stackexchange_row go) (list_of (lookup "items" body))
        (λ m row e. linked_lem _ _ _ row e)

  pub extract_azure_lem :
      (body : Dict (Json F)) (params : Dict String) → IsSound (extract_azure go body params)
  unfolding extract_azure azure_row
  extract_azure_lem body params =
      rows_of_lem go (azure_row go params) (list_of (lookup "value" body))
        (λ m row e. linked_lem _ _ _ row e)

  pub extract_vectara_lem : (body : Dict (Json F)) → IsSound (extract_vectara go body)
  unfolding extract_vectara
  extract_vectara_lem body =
      rows_of_lem go (vectara_row go) (list_of (lookup "search_results" body)) vectara_row_lem
