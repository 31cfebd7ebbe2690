-- ===== src/Rest/Table.antt =====
-- The drivers of the table of internal/providers/rest.go: the rows of every one of them.
use serpent_seek.Prelude.{String, ◌≡◌, inl, inr, List, [], ◌∷◌, Dict, All, ◌&◌, In}
use serpent_seek.Models.{Row}
use serpent_seek.Rest.Json.{Json, Floats}
use serpent_seek.Rest.Spec.{Web, RestSpec, extracted}
use serpent_seek.Rest.Results.{extract_rows}
use serpent_seek.Rest.Links.{IsLinked, IsSound, collect_rows_lem}
use serpent_seek.Rest.Extractions.{
  extract_serpapi_lem, extract_searchapi_lem, extract_dataforseo_lem, extract_youcom_lem,
  extract_firecrawl_lem, extract_mojeek_lem, extract_exa_lem, extract_parallel_lem,
  extract_kagi_lem, extract_openalex_lem, extract_semanticscholar_lem, extract_crossref_lem,
  extract_github_lem, extract_hn_lem, extract_stackexchange_lem, extract_azure_lem,
  extract_vectara_lem,
}
use serpent_seek.Rest.Catalog.{rest_specs}
use serpent_seek.Rest.Catalog.Serp.{
  brave, serper, serpapi, searchapi, dataforseo, youcom, jina, firecrawl, mojeek, marginalia,
}
use serpent_seek.Rest.Catalog.Ai.{tavily, exa, linkup, perplexity, valyu, parallel, ollama}
use serpent_seek.Rest.Catalog.Vertical.{
  kagi, openalex, semanticscholar, crossref, github, hacker_news, stackexchange, azure_search,
  vectara, kendra,
}

pub All-In : {A : Type 0} (P : A → Type 0) (x : A) (xs : List A) → All P xs → In x xs → P x
All-In P x [] all h = absurd h
All-In P x (y ∷ ys) (here, all) (inl e) = rw e here
All-In P x (y ∷ ys) (here, all) (inr h) = All-In P x ys all h

module _ {F : Type 0} (go : Floats F) (web : Web) where
  abbrev pub HasLinks : RestSpec F → Type 0
  HasLinks spec =
      (body : Dict (Json F)) (params : Dict String) → IsSound (extract_rows go spec body params)

  All-HasLinks : All HasLinks (rest_specs go web)
  unfolding rest_specs extract_rows brave serper serpapi searchapi dataforseo youcom jina firecrawl
      mojeek marginalia tavily exa linkup perplexity valyu parallel ollama kagi openalex
      semanticscholar crossref github hacker_news stackexchange azure_search vectara kendra
  All-HasLinks =
      let plain =
        λ (vs : List (Json F)) (links : List String) (title : String) (snippets : List String).
          collect_rows_lem go vs links snippets title in
      (λ body params. plain _ _ _ _)
      & (λ body params. plain _ _ _ _)
      & (λ body params. extract_serpapi_lem go body)
      & (λ body params. extract_searchapi_lem go body)
      & (λ body params. extract_dataforseo_lem go body)
      & (λ body params. extract_youcom_lem go body)
      & (λ body params. plain _ _ _ _)
      & (λ body params. extract_firecrawl_lem go body)
      & (λ body params. extract_mojeek_lem go body)
      & (λ body params. plain _ _ _ _)
      & (λ body params. plain _ _ _ _)
      & (λ body params. extract_exa_lem go body)
      & (λ body params. plain _ _ _ _)
      & (λ body params. plain _ _ _ _)
      & (λ body params. plain _ _ _ _)
      & (λ body params. extract_parallel_lem go body)
      & (λ body params. plain _ _ _ _)
      & (λ body params. extract_kagi_lem go body)
      & (λ body params. extract_openalex_lem go body)
      & (λ body params. extract_semanticscholar_lem go body)
      & (λ body params. extract_crossref_lem go body)
      & (λ body params. extract_github_lem go body)
      & (λ body params. extract_hn_lem go body)
      & (λ body params. extract_stackexchange_lem go body)
      & (λ body params. extract_azure_lem go body params)
      & (λ body params. extract_vectara_lem go body)
      & (λ body params. tt)
      & tt

  -- Every row that a driver of the table extracts from a body has a link.
  pub extract_rows-IsLinked :
      (spec : RestSpec F) (body : Dict (Json F)) (params : Dict String) (rows : List Row)
      → In spec (rest_specs go web)
      → extract_rows go spec body params ≡ extracted rows
      → All IsLinked rows
  extract_rows-IsLinked spec body params rows listed e =
      rw (e, IsSound) at (All-In HasLinks spec (rest_specs go web) All-HasLinks listed body params)
