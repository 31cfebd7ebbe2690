-- ===== src/Rest/Catalog/Vertical.antt =====
-- The table of internal/providers/rest.go: the drivers of one field, and enterprise engines.
use serpent_seek.Prelude.{pos, true, some, [], ◌∷◌, map}
use serpent_seek.Rest.Json.{Floats}
use serpent_seek.Rest.Spec.{
  Web, RestSpec, extracted, no_auth, plain_spec, text_param, required_text_param, number_param,
  select_param,
}
use serpent_seek.Rest.Extracts.{extract_kagi}
use serpent_seek.Rest.Papers.{
  extract_openalex, extract_semanticscholar, extract_crossref, extract_github, extract_hn,
  extract_stackexchange, extract_azure, extract_vectara,
}
use serpent_seek.Rest.Builds.{
  build_azure, build_github, build_kagi, build_kendra, build_semanticscholar, build_stackexchange,
  build_vectara,
}

module _ {F : Type 0} (go : Floats F) (web : Web) where
  unfoldable pub kagi : RestSpec F
  kagi =
      record (plain_spec go "kagi" "https://kagi.com" ("api_key" ∷ []) (
        select_param "mode" "fastgpt" ("fastgpt" ∷ "search" ∷ [])
        ∷ text_param "limit" ""
        ∷ text_param "search_language" ""
        ∷ text_param "country" ""
        ∷ text_param "no_cache" ""
        ∷ [])) {
          method = "POST";
          path = "/api/v0/fastgpt";
          auth = record no_auth { kind = "header"; header = "Authorization"; cred_key = "api_key" };
          body = true;
          query_key = "q";
          title_key = "title";
          link_keys = "url" ∷ [];
          snippet_keys = "snippet" ∷ [];
          build = some (build_kagi go web);
          extract = some (extract_kagi go);
        }

  unfoldable pub openalex : RestSpec F
  openalex =
      record (plain_spec go "openalex" "https://api.openalex.org" ([])
        (text_param "filter" "" ∷ text_param "sort" "" ∷ text_param "mailto" "" ∷ [])) {
          path = "/works";
          query_key = "search";
          count_field = "per-page";
          title_key = "title";
          count_cap = 200;
          result_path = "results" ∷ [];
          link_keys = "doi" ∷ "primary_location.landing_page_url" ∷ "id" ∷ [];
          snippet_keys = "display_name" ∷ [];
          fatal_http = map pos (400 ∷ []);
          extract = some (extract_openalex go);
        }

  unfoldable pub semanticscholar : RestSpec F
  semanticscholar =
      record (plain_spec go "semanticscholar" "https://api.semanticscholar.org" ("api_key" ∷ []) (
        text_param "fields" "title,abstract,url,year,citationCount,tldr"
        ∷ select_param "sort" "" ("" ∷ "relevance" ∷ "publicationDate" ∷ "citationCount" ∷ [])
        ∷ text_param "offset" ""
        ∷ [])) {
          path = "/graph/v1/paper/search";
          auth = record no_auth { kind = "header"; header = "x-api-key"; cred_key = "api_key" };
          query_key = "query";
          count_field = "limit";
          title_key = "title";
          count_cap = 100;
          result_path = "data" ∷ [];
          link_keys = "url" ∷ [];
          snippet_keys = "abstract" ∷ [];
          fatal_http = map pos (400 ∷ 403 ∷ []);
          max_rps = go.literal 1 1;
          build = some (build_semanticscholar go web);
          extract = some (extract_semanticscholar go);
        }

  unfoldable pub crossref : RestSpec F
  crossref =
      record (plain_spec go "crossref" "https://api.crossref.org" ([]) (
        text_param "filter" ""
        ∷ text_param "sort" ""
        ∷ text_param "order" ""
        ∷ text_param "mailto" ""
        ∷ [])) {
          path = "/works";
          query_key = "query";
          count_field = "rows";
          title_key = "title";
          count_cap = 1000;
          result_path = "message" ∷ "items" ∷ [];
          link_keys = "URL" ∷ [];
          snippet_keys = "abstract" ∷ [];
          fatal_http = map pos (400 ∷ 404 ∷ []);
          extract = some (extract_crossref go);
        }

  unfoldable pub github : RestSpec F
  github =
      record (plain_spec go "github" "https://api.github.com" ("api_key" ∷ []) (
        select_param "search_type" "repositories"
          ("repositories" ∷ "code" ∷ "issues" ∷ "commits" ∷ "users" ∷ [])
        ∷ text_param "sort" ""
        ∷ text_param "order" ""
        ∷ [])) {
          path = "/search/repositories";
          auth = record no_auth { kind = "header"; header = "Authorization"; cred_key = "api_key" };
          query_key = "q";
          count_field = "per_page";
          title_key = "full_name";
          count_cap = 100;
          result_path = "items" ∷ [];
          link_keys = "html_url" ∷ [];
          snippet_keys = "description" ∷ [];
          fatal_http = map pos (401 ∷ 422 ∷ []);
          max_rps = go.literal 1 2;
          build = some (build_github go web);
          extract = some (extract_github go);
        }

  unfoldable pub hacker_news : RestSpec F
  hacker_news =
      record (plain_spec go "hn" "https://hn.algolia.com" ([]) (
        select_param "search_type" "relevance" ("relevance" ∷ "date" ∷ [])
        ∷ select_param "tags" ""
            ("" ∷ "story" ∷ "comment" ∷ "ask_hn" ∷ "show_hn" ∷ "front_page" ∷ [])
        ∷ text_param "numericFilters" ""
        ∷ number_param "page" "0"
        ∷ [])) {
          path = "/api/v1/search";
          query_key = "query";
          count_field = "hitsPerPage";
          title_key = "title";
          path_param = "search_type";
          count_cap = 1000;
          result_path = "hits" ∷ [];
          link_keys = "url" ∷ [];
          snippet_keys = "story_text" ∷ [];
          path_map = ("date", "/api/v1/search_by_date") ∷ [];
          fatal_http = map pos (400 ∷ []);
          extract = some (extract_hn go);
        }

  unfoldable pub stackexchange : RestSpec F
  stackexchange =
      record (plain_spec go "stackexchange" "https://api.stackexchange.com" ("api_key" ∷ []) (
        text_param "site" "stackoverflow"
        ∷ text_param "tagged" ""
        ∷ text_param "nottagged" ""
        ∷ select_param "sort" "relevance" ("relevance" ∷ "activity" ∷ "votes" ∷ "creation" ∷ [])
        ∷ select_param "order" "desc" ("desc" ∷ "asc" ∷ [])
        ∷ text_param "fromdate" ""
        ∷ text_param "todate" ""
        ∷ [])) {
          path = "/2.3/search/advanced";
          auth = record no_auth { kind = "query"; query_key = "key"; cred_key = "api_key" };
          query_key = "q";
          count_field = "pagesize";
          title_key = "title";
          throttle_key = "backoff";
          count_cap = 100;
          result_path = "items" ∷ [];
          link_keys = "link" ∷ [];
          snippet_keys = "body" ∷ [];
          fatal_http = map pos (400 ∷ 401 ∷ 403 ∷ []);
          build = some (build_stackexchange go web);
          extract = some (extract_stackexchange go);
        }

  unfoldable pub azure_search : RestSpec F
  azure_search =
      record (plain_spec go "azure_search" "https://{}.search.windows.net"
        ("api_key" ∷ "tenant_id" ∷ "client_id" ∷ "client_secret" ∷ [])
        (required_text_param "service_name" ""
          ∷ required_text_param "index_name" ""
          ∷ select_param "auth_mode" "api_key" ("api_key" ∷ "aad" ∷ [])
          ∷ select_param "query_type" "simple" ("simple" ∷ "full" ∷ "semantic" ∷ [])
          ∷ select_param "searchMode" "any" ("any" ∷ "all" ∷ [])
          ∷ text_param "semanticConfiguration" ""
          ∷ text_param "title_field" "title"
          ∷ text_param "url_field" "url"
          ∷ text_param "snippet_field" "description"
          ∷ text_param "select" ""
          ∷ text_param "api_version" "2024-07-01"
          ∷ [])) {
            method = "POST";
            auth = record no_auth { kind = "header"; header = "api-key"; cred_key = "api_key" };
            body = true;
            query_key = "search";
            count_field = "top";
            title_key = "title";
            result_path = "value" ∷ [];
            link_keys = "url" ∷ [];
            snippet_keys = "snippet" ∷ [];
            fatal_http = map pos (400 ∷ 401 ∷ 403 ∷ 404 ∷ 413 ∷ []);
            build = some (build_azure go web);
            extract_p = some (extract_azure go);
          }

  unfoldable pub vectara : RestSpec F
  vectara =
      record (plain_spec go "vectara" "https://api.vectara.io" ("api_key" ∷ [])
        (required_text_param "corpus_key" "" ∷ text_param "metadata_filter" "" ∷ [])) {
          method = "POST";
          path = "/v2/query";
          auth = record no_auth { kind = "header"; header = "x-api-key"; cred_key = "api_key" };
          body = true;
          query_key = "query";
          count_field = "limit";
          title_key = "title";
          result_path = "search_results" ∷ [];
          link_keys = "url" ∷ [];
          snippet_keys = "text" ∷ [];
          fatal_http = map pos (400 ∷ 403 ∷ 404 ∷ []);
          build = some (build_vectara go web);
          extract = some (extract_vectara go);
        }

  unfoldable pub kendra : RestSpec F
  kendra =
      let plain =
        plain_spec go "kendra" "https://kendra.us-east-1.amazonaws.com"
          ("access_key_id" ∷ "secret_access_key" ∷ [])
          (text_param "index_id" ""
            ∷ text_param "region" "us-east-1"
            ∷ select_param "QueryResultTypeFilter" "DOCUMENT"
                ("DOCUMENT" ∷ "QUESTION_ANSWER" ∷ "ANSWER" ∷ [])
            ∷ []) in
      record plain {
        schema = record plain.schema { deprecated = true };
        method = "POST";
        body = true;
        title_key = "title";
        link_keys = "url" ∷ [];
        snippet_keys = "snippet" ∷ [];
        fatal_http = map pos (400 ∷ []);
        build = some (build_kendra go web);
        extract = some (λ body. extracted []);
      }
