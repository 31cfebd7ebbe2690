-- ===== src/Rest/Catalog.antt =====
-- restSpecs and newRestRegistry of internal/providers/rest.go: the drivers of the table, and the registry of them
-- of internal/providers/provider.go.
pub mod Serp
pub mod Ai
pub mod Vertical
use serpent_seek.Prelude.{String, Option, List, [], ◌∷◌, Dict, insert, lookup, trim_space, to_lower}
use serpent_seek.Rest.Json.{Floats}
use serpent_seek.Rest.Spec.{Web, RestSpec}
use serpent_seek.Rest.Catalog.Serp.{
  brave, serper, serpapi, searchapi, dataforseo, youcom, jina, firecrawl, mojeek, marginalia,
}
use serpent_seek.Rest.Catalog.Ai.{tavily, exa, linkup, perplexity, valyu, parallel, ollama}
use serpent_seek.Rest.Catalog.Vertical.{
  kagi, openalex, semanticscholar, crossref, github, hacker_news, stackexchange, azure_search,
  vectara, kendra,
}

module _ {F : Type 0} (go : Floats F) (web : Web) where
  -- restSpecs
  unfoldable pub rest_specs : List (RestSpec F)
  rest_specs =
      brave go web
      ∷ serper go web
      ∷ serpapi go web
      ∷ searchapi go web
      ∷ dataforseo go web
      ∷ youcom go web
      ∷ jina go web
      ∷ firecrawl go web
      ∷ mojeek go web
      ∷ marginalia go web
      ∷ tavily go web
      ∷ exa go web
      ∷ linkup go web
      ∷ perplexity go web
      ∷ valyu go web
      ∷ parallel go web
      ∷ ollama go web
      ∷ kagi go web
      ∷ openalex go web
      ∷ semanticscholar go web
      ∷ crossref go web
      ∷ github go web
      ∷ hacker_news go web
      ∷ stackexchange go web
      ∷ azure_search go web
      ∷ vectara go web
      ∷ kendra go web
      ∷ []

-- add, of one driver after the other
unfoldable registered : {F : Type 0} → List (RestSpec F) → Dict (RestSpec F) → Dict (RestSpec F)
registered [] m = m
registered (spec ∷ specs) m = registered specs (insert spec.code spec m)

-- Get
unfoldable get_driver : {F : Type 0} → String → Dict (RestSpec F) → Option (RestSpec F)
get_driver code m = lookup (to_lower (trim_space code)) m
