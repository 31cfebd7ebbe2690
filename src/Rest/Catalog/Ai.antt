-- ===== src/Rest/Catalog/Ai.antt =====
-- The table of internal/providers/rest.go: the drivers of AI search.
use serpent_seek.Prelude.{true, some, [], ◌∷◌}
use serpent_seek.Rest.Json.{Floats}
use serpent_seek.Rest.Spec.{
  Web, RestSpec, no_auth, plain_spec, text_param, number_param, select_param,
}
use serpent_seek.Rest.Extracts.{extract_exa, extract_parallel}
use serpent_seek.Rest.Builds.{build_linkup, build_ollama, build_parallel, build_perplexity}

module _ {F : Type 0} (go : Floats F) (web : Web) where
  unfoldable pub tavily : RestSpec F
  tavily =
      record (plain_spec go "tavily" "https://api.tavily.com" ("api_key" ∷ []) (
        select_param "search_depth" "basic" ("basic" ∷ "advanced" ∷ [])
        ∷ select_param "topic" "general" ("general" ∷ "news" ∷ [])
        ∷ select_param "time_range" "" ("" ∷ "day" ∷ "week" ∷ "month" ∷ "year" ∷ [])
        ∷ text_param "include_domains" ""
        ∷ text_param "exclude_domains" ""
        ∷ [])) {
          method = "POST";
          path = "/search";
          auth = record no_auth { kind = "bearer"; cred_key = "api_key" };
          body = true;
          query_key = "query";
          count_field = "max_results";
          lang_field = "language";
          country_field = "country";
          title_key = "title";
          count_cap = 20;
          result_path = "results" ∷ [];
          link_keys = "url" ∷ [];
          snippet_keys = "content" ∷ [];
        }

  unfoldable pub exa : RestSpec F
  exa =
      record (plain_spec go "exa" "https://api.exa.ai" ("api_key" ∷ []) (
        select_param "type" "auto" ("auto" ∷ "neural" ∷ "keyword" ∷ "fast" ∷ [])
        ∷ text_param "category" ""
        ∷ text_param "startPublishedDate" ""
        ∷ text_param "endPublishedDate" ""
        ∷ text_param "includeDomains" ""
        ∷ text_param "excludeDomains" ""
        ∷ [])) {
          method = "POST";
          path = "/search";
          auth = record no_auth { kind = "bearer"; cred_key = "api_key" };
          body = true;
          query_key = "query";
          count_field = "numResults";
          title_key = "title";
          result_path = "results" ∷ [];
          link_keys = "url" ∷ [];
          snippet_keys = "highlights" ∷ [];
          extract = some (extract_exa go);
        }

  unfoldable pub linkup : RestSpec F
  linkup =
      record (plain_spec go "linkup" "https://api.linkup.so" ("api_key" ∷ []) (
        select_param "depth" "standard" ("standard" ∷ "deep" ∷ [])
        ∷ text_param "includeDomains" ""
        ∷ text_param "excludeDomains" ""
        ∷ text_param "fromDate" ""
        ∷ text_param "toDate" ""
        ∷ text_param "language" ""
        ∷ [])) {
          method = "POST";
          path = "/v1/search";
          auth = record no_auth { kind = "bearer"; cred_key = "api_key" };
          body = true;
          query_key = "q";
          count_field = "maxResults";
          title_key = "name";
          result_path = "results" ∷ [];
          link_keys = "url" ∷ [];
          snippet_keys = "content" ∷ [];
          build = some (build_linkup go web);
        }

  unfoldable pub perplexity : RestSpec F
  perplexity =
      record (plain_spec go "perplexity" "https://api.perplexity.ai" ("api_key" ∷ []) (
        select_param "search_context_size" "medium" ("low" ∷ "medium" ∷ "high" ∷ [])
        ∷ select_param "search_type" "web" ("web" ∷ "fast" ∷ "people" ∷ [])
        ∷ text_param "search_recency_filter" ""
        ∷ text_param "country" "us"
        ∷ [])) {
          method = "POST";
          path = "/search";
          auth = record no_auth { kind = "bearer"; cred_key = "api_key" };
          body = true;
          query_key = "query";
          count_field = "max_results";
          country_field = "country";
          title_key = "title";
          count_cap = 50;
          result_path = "results" ∷ [];
          link_keys = "url" ∷ [];
          snippet_keys = "snippet" ∷ [];
          build = some (build_perplexity go web);
        }

  unfoldable pub valyu : RestSpec F
  valyu =
      record (plain_spec go "valyu" "https://api.valyu.ai" ("api_key" ∷ []) (
        select_param "search_type" "all" ("all" ∷ "web" ∷ "proprietary" ∷ "news" ∷ [])
        ∷ select_param "response_length" "short" ("short" ∷ "medium" ∷ "long" ∷ [])
        ∷ text_param "included_sources" ""
        ∷ text_param "excluded_sources" ""
        ∷ text_param "start_date" ""
        ∷ text_param "end_date" ""
        ∷ [])) {
          method = "POST";
          path = "/v1/search";
          auth = record no_auth { kind = "header"; header = "X-API-Key"; cred_key = "api_key" };
          body = true;
          query_key = "query";
          count_field = "max_num_results";
          country_field = "country_code";
          title_key = "title";
          count_cap = 20;
          result_path = "results" ∷ [];
          link_keys = "url" ∷ [];
          snippet_keys = "content" ∷ "description" ∷ [];
        }

  unfoldable pub parallel : RestSpec F
  parallel =
      record (plain_spec go "parallel" "https://api.parallel.ai" ("api_key" ∷ []) (
        select_param "mode" "advanced" ("advanced" ∷ "fast" ∷ "turbo" ∷ [])
        ∷ number_param "max_chars_total" ""
        ∷ [])) {
          method = "POST";
          path = "/v1/search";
          auth = record no_auth { kind = "header"; header = "x-api-key"; cred_key = "api_key" };
          body = true;
          query_key = "objective";
          title_key = "title";
          result_path = "results" ∷ [];
          link_keys = "url" ∷ [];
          snippet_keys = "excerpts" ∷ [];
          build = some (build_parallel go web);
          extract = some (extract_parallel go);
        }

  unfoldable pub ollama : RestSpec F
  ollama = record (plain_spec go "ollama" "https://ollama.com" ("api_key" ∷ []) ([])) {
    method = "POST";
    path = "/api/web_search";
    auth = record no_auth { kind = "bearer"; cred_key = "api_key" };
    body = true;
    query_key = "query";
    count_field = "max_results";
    title_key = "title";
    count_cap = 10;
    result_path = "results" ∷ [];
    link_keys = "url" ∷ [];
    snippet_keys = "content" ∷ [];
    build = some (build_ollama go web);
  }
