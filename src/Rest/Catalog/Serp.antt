-- ===== src/Rest/Catalog/Serp.antt =====
-- The table of internal/providers/rest.go: the drivers of search engines.
use serpent_seek.Prelude.{pos, Bool, true, some, List, [], ◌∷◌, ◌++◌, Dict, length, eqb}
use serpent_seek.Models.{Row}
use serpent_seek.Rest.Json.{Json, Floats}
use serpent_seek.Rest.Spec.{
  Web, RestSpec, no_auth, plain_spec, common_retry, text_param, number_param, select_param,
}
use serpent_seek.Rest.Extracts.{
  extract_serpapi, extract_searchapi, extract_dataforseo, extract_youcom, extract_firecrawl,
  extract_mojeek,
}
use serpent_seek.Rest.Builds.{build_dataforseo, build_jina}

module _ {F : Type 0} (go : Floats F) (web : Web) where
  abbrev pub no_rows : Dict (Json F) → List Row → Bool
  no_rows body rows = eqb (length rows) 0

  unfoldable pub brave : RestSpec F
  brave =
      record (plain_spec go "brave" "https://api.search.brave.com" ("api_key" ∷ []) (
        text_param "country" "us"
        ∷ text_param "search_lang" "en"
        ∷ select_param "safesearch" "off" ("off" ∷ "strict" ∷ [])
        ∷ select_param "freshness" "" ("" ∷ "pd" ∷ "pw" ∷ "pm" ∷ "py" ∷ [])
        ∷ text_param "offset" ""
        ∷ text_param "result_filter" ""
        ∷ text_param "goggles" ""
        ∷ text_param "ui_lang" ""
        ∷ select_param "units" "" ("" ∷ "metric" ∷ "imperial" ∷ [])
        ∷ [])) {
          path = "/res/v1/web/search";
          auth = record no_auth {
            kind = "header";
            header = "X-Subscription-Token";
            cred_key = "api_key";
          };
          query_key = "q";
          count_field = "count";
          lang_field = "search_lang";
          country_field = "country";
          title_key = "title";
          count_cap = 20;
          result_path = "web" ∷ "results" ∷ [];
          link_keys = "url" ∷ [];
          snippet_keys = "description" ∷ [];
        }

  unfoldable pub serper : RestSpec F
  serper =
      record (plain_spec go "serper" "https://google.serper.dev" ("api_key" ∷ []) (
        text_param "gl" "us"
        ∷ text_param "hl" "en"
        ∷ text_param "location" ""
        ∷ text_param "page" "1"
        ∷ [])) {
          method = "POST";
          path = "/search";
          auth = record no_auth { kind = "header"; header = "X-API-KEY"; cred_key = "api_key" };
          body = true;
          query_key = "q";
          count_field = "num";
          lang_field = "hl";
          country_field = "gl";
          title_key = "title";
          result_path = "organic" ∷ [];
          link_keys = "link" ∷ "url" ∷ [];
          snippet_keys = "snippet" ∷ [];
        }

  unfoldable pub serpapi : RestSpec F
  serpapi =
      record (plain_spec go "serpapi" "https://serpapi.com" ("api_key" ∷ []) (
        select_param "engine" "google" (
          "google" ∷ "bing" ∷ "yandex" ∷ "yahoo" ∷ "baidu" ∷ "naver" ∷ "ebay" ∷ "walmart"
          ∷ "youtube" ∷ [])
        ∷ text_param "gl" "us"
        ∷ text_param "hl" "en"
        ∷ text_param "location" ""
        ∷ text_param "device" ""
        ∷ [])) {
          path = "/search";
          auth = record no_auth { kind = "query"; query_key = "api_key"; cred_key = "api_key" };
          query_key = "q";
          count_field = "num";
          lang_field = "hl";
          country_field = "gl";
          title_key = "title";
          result_path = "organic_results" ∷ [];
          link_keys = "link" ∷ "url" ∷ [];
          snippet_keys = "snippet" ∷ [];
          extract = some (extract_serpapi go);
          is_empty = some no_rows;
        }

  unfoldable pub searchapi : RestSpec F
  searchapi =
      record (plain_spec go "searchapi" "https://www.searchapi.io" ("api_key" ∷ []) (
        select_param "engine" "google" ("google" ∷ "bing" ∷ "yandex" ∷ "yahoo" ∷ "duckduckgo" ∷ [])
        ∷ text_param "gl" "us"
        ∷ text_param "hl" "en"
        ∷ text_param "page" "1"
        ∷ text_param "link" ""
        ∷ [])) {
          path = "/api/v1/search";
          auth = record no_auth { kind = "query"; query_key = "api_key"; cred_key = "api_key" };
          query_key = "q";
          count_field = "num";
          lang_field = "hl";
          country_field = "gl";
          title_key = "title";
          result_path = "organic_results" ∷ [];
          link_keys = "link" ∷ "url" ∷ [];
          snippet_keys = "snippet" ∷ [];
          extract = some (extract_searchapi go);
        }

  unfoldable pub dataforseo : RestSpec F
  dataforseo =
      record (plain_spec go "dataforseo" "https://api.dataforseo.com" ("login" ∷ "password" ∷ []) (
        text_param "location_code" ""
        ∷ select_param "device" "" ("" ∷ "desktop" ∷ "mobile" ∷ [])
        ∷ select_param "os" "" ("" ∷ "windows" ∷ "macos" ∷ "android" ∷ "ios" ∷ [])
        ∷ [])) {
          method = "POST";
          path = "/v3/serp/google/organic/live/advanced";
          auth = record no_auth { kind = "basic"; login_key = "login"; password_key = "password" };
          body = true;
          query_key = "keyword";
          count_field = "depth";
          lang_field = "language_code";
          title_key = "title";
          count_cap = 200;
          link_keys = "url" ∷ [];
          snippet_keys = "description" ∷ "extended_snippet" ∷ [];
          build = some (build_dataforseo go web);
          extract = some (extract_dataforseo go);
          is_empty = some no_rows;
        }

  unfoldable pub youcom : RestSpec F
  youcom =
      record (plain_spec go "youcom" "https://ydc-index.io" ("api_key" ∷ []) (
        text_param "country" "us"
        ∷ text_param "language" ""
        ∷ text_param "freshness" ""
        ∷ text_param "offset" ""
        ∷ [])) {
          method = "POST";
          path = "/v1/search";
          auth = record no_auth { kind = "header"; header = "X-API-Key"; cred_key = "api_key" };
          body = true;
          query_key = "query";
          count_field = "count";
          lang_field = "language";
          country_field = "country";
          title_key = "title";
          link_keys = "url" ∷ [];
          snippet_keys = "description" ∷ [];
          extract = some (extract_youcom go);
        }

  unfoldable pub jina : RestSpec F
  jina =
      record (plain_spec go "jina" "https://s.jina.ai" ("api_key" ∷ [])
        (text_param "site" "" ∷ [])) {
          path = "/";
          auth = record no_auth { kind = "bearer"; cred_key = "api_key" };
          headers = ("Accept", "application/json") ∷ ("X-Respond-With", "no-content") ∷ [];
          title_key = "title";
          result_path = "data" ∷ [];
          link_keys = "url" ∷ [];
          snippet_keys = "description" ∷ "content" ∷ [];
          build = some (build_jina go web);
        }

  unfoldable pub firecrawl : RestSpec F
  firecrawl =
      record (plain_spec go "firecrawl" "https://api.firecrawl.dev" ("api_key" ∷ []) (
        text_param "sources" "web"
        ∷ text_param "country" "us"
        ∷ text_param "includeDomains" ""
        ∷ text_param "excludeDomains" ""
        ∷ text_param "tbs" ""
        ∷ [])) {
          method = "POST";
          path = "/v2/search";
          auth = record no_auth { kind = "bearer"; cred_key = "api_key" };
          body = true;
          query_key = "query";
          count_field = "limit";
          country_field = "country";
          title_key = "title";
          link_keys = "url" ∷ [];
          snippet_keys = "description" ∷ [];
          extract = some (extract_firecrawl go);
        }

  unfoldable pub mojeek : RestSpec F
  mojeek =
      record (plain_spec go "mojeek" "https://www.mojeek.com" ("api_key" ∷ []) (
        text_param "fmt" "json"
        ∷ text_param "s" ""
        ∷ text_param "since" ""
        ∷ text_param "before" ""
        ∷ text_param "lb" ""
        ∷ text_param "lbb" ""
        ∷ text_param "rb" ""
        ∷ text_param "rbb" ""
        ∷ text_param "lr" ""
        ∷ text_param "safe" ""
        ∷ text_param "tlen" ""
        ∷ text_param "dlen" ""
        ∷ text_param "site" ""
        ∷ [])) {
          path = "/search";
          auth = record no_auth { kind = "query"; query_key = "api_key"; cred_key = "api_key" };
          query_key = "q";
          count_field = "t";
          title_key = "title";
          result_path = "response" ∷ "results" ∷ [];
          link_keys = "url" ∷ [];
          snippet_keys = "desc" ∷ [];
          extract = some (extract_mojeek go);
        }

  unfoldable pub marginalia : RestSpec F
  marginalia =
      record (plain_spec go "marginalia" "https://api2.marginalia-search.com" ("api_key" ∷ []) (
        number_param "count" "10"
        ∷ number_param "timeout" ""
        ∷ number_param "dc" ""
        ∷ text_param "nsfw" ""
        ∷ text_param "filter" ""
        ∷ [])) {
          path = "/search";
          auth = record no_auth { kind = "header"; header = "API-Key"; cred_key = "api_key" };
          query_key = "query";
          count_field = "count";
          title_key = "title";
          count_cap = 100;
          result_path = "results" ∷ [];
          link_keys = "url" ∷ [];
          snippet_keys = "description" ∷ [];
          retry_http = common_retry ++ pos 503 ∷ [];
        }
