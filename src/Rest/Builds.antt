-- ===== src/Rest/Builds.antt =====
-- The requests that the table of internal/providers/rest.go builds by functions of its own. The parameters are
-- copied in any order: here the one that stands first is copied last.
use serpent_seek.Prelude.{
  ℕ, pos, is_positive, to_ℕ, String, Bool, false, ◌||◌, Option, none, some, List, [], ◌∷◌, Dict,
  insert, ◌==◌, if◌then◌else◌, trim_space, to_lower, append_text, join, itoa,
}
use serpent_seek.Rest.Json.{
  Json, Floats, boolean, number, text, array, object, elem, no_elems, props_of,
}
use serpent_seek.Rest.Params.{param, default_str, contains_str}
use serpent_seek.Rest.Spec.{Query, Request, Web}
use serpent_seek.Rest.Build.{capped, base_of, with_key, copy_params}

-- q.Count, up to a cap, where 0 is no cap
abbrev pub count_up_to : ℕ → Query → ℕ
count_up_to cap q = capped cap (to_ℕ q.count)

abbrev pub accept_json : Dict String
accept_json = ("Accept", "application/json") ∷ []

abbrev pub json_headers : Dict String
json_headers = ("Content-Type", "application/json") ∷ ("Accept", "application/json") ∷ []

abbrev pub nothing_skipped : String → Bool
nothing_skipped k = false

abbrev pub value_of : String → List String
value_of v = v ∷ []

module _ {F : Type 0} (go : Floats F) (web : Web) where
  -- http.NewRequestWithContext with a body of JSON
  abbrev pub post_json : String → Dict (Json F) → Dict String → Option (Request F)
  post_json address body headers = elim (web.parse_url address) [
    | none ↦ none
    | some url ↦ some (record {
      method = "POST";
      url = url;
      body = some (object (props_of body));
      headers = headers;
    })
  ]

  -- a GET whose query is the one of the address, changed
  abbrev pub get_values :
      String → (Dict (List String) → Dict (List String)) → Dict String → Option (Request F)
  get_values address change headers = elim (web.parse_url address) [
    | none ↦ none
    | some url ↦ some (record {
      method = "GET";
      url = record url { query = change url.query };
      body = none;
      headers = headers;
    })
  ]

  -- body[key] = min(q.Count, cap), for a positive count
  abbrev pub with_count : String → ℕ → Query → Dict (Json F) → Dict (Json F)
  with_count key cap q body =
      if is_positive q.count
      then insert key (number (go.of_int (pos (count_up_to cap q)))) body
      else body

  abbrev pub count_values : String → ℕ → Query → Dict (List String) → Dict (List String)
  count_values key cap q values =
      if is_positive q.count
      then insert key (value_of (itoa (pos (count_up_to cap q)))) values
      else values

  -- body[key] = v, for a v that is not empty
  abbrev pub with_text : String → String → Dict (Json F) → Dict (Json F)
  with_text key v body = if v == "" then body else insert key (text v) body

  unfoldable pub build_dataforseo : Query → Dict String → Dict String → Option (Request F)
  build_dataforseo q c p =
      let task = with_text "os" (param "os" p) (
        with_text "device" (param "device" p) (
          with_text "location_code" (param "location_code" p) (
            with_text "language_code" q.lang
              (with_count "depth" 200 q (("keyword", text q.text) ∷ []))))) in
      elim (web.parse_url (
        append_text (base_of "https://api.dataforseo.com" p)
          "/v3/serp/google/organic/live/advanced")) [
            | none ↦ none
            | some url ↦ some (record {
              method = "POST";
              url = url;
              body = some (array (elem (object (props_of task)) no_elems));
              headers =
                  insert "Authorization" (web.basic_auth (param "login" c) (param "password" c))
                    json_headers;
            })
          ]

  unfoldable pub build_jina : Query → Dict String → Dict String → Option (Request F)
  build_jina q c p =
      let page =
        append_text (base_of "https://s.jina.ai" p) (append_text "/" (web.path_escape q.text)) in
      let site = param "site" p in
      let address =
        if site == ""
        then page
        else append_text page (append_text "?site=" (web.query_escape site)) in
      get_values address (λ values. values)
        (with_key "Authorization" "Bearer " (param "api_key" c)
          (("Accept", "application/json") ∷ ("X-Respond-With", "no-content") ∷ []))

  unfoldable pub build_linkup : Query → Dict String → Dict String → Option (Request F)
  build_linkup q c p =
      post_json (append_text (base_of "https://api.linkup.so" p) "/v1/search")
        (copy_params (λ k. k == "outputType") text p
          (with_count "maxResults" 0 q
            (("q", text q.text) ∷ ("outputType", text "searchResults") ∷ [])))
        (with_key "Authorization" "Bearer " (param "api_key" c) json_headers)

  unfoldable pub build_perplexity : Query → Dict String → Dict String → Option (Request F)
  build_perplexity q c p =
      post_json (append_text (base_of "https://api.perplexity.ai" p) "/search")
        (copy_params nothing_skipped text p
          (with_count "max_results" 0 q (("query", text q.text) ∷ [])))
        (with_key "Authorization" "Bearer " (param "api_key" c) json_headers)

  unfoldable pub build_parallel : Query → Dict String → Dict String → Option (Request F)
  build_parallel q c p =
      post_json (append_text (base_of "https://api.parallel.ai" p) "/v1/search")
        (copy_params (λ k. k == "search_queries") text p
          (("objective", text q.text)
            ∷ ("search_queries", array (elem (text q.text) no_elems))
            ∷ ("mode", text "advanced")
            ∷ []))
        (with_key "x-api-key" "" (param "api_key" c) json_headers)

  unfoldable pub build_ollama : Query → Dict String → Dict String → Option (Request F)
  build_ollama q c p =
      post_json (append_text (base_of "https://ollama.com" p) "/api/web_search")
        (with_count "max_results" 10 q (("query", text q.text) ∷ []))
        (with_key "Authorization" "Bearer " (param "api_key" c) json_headers)

  unfoldable pub build_kagi : Query → Dict String → Dict String → Option (Request F)
  build_kagi q c p =
      let base = base_of "https://kagi.com" p in
      let key = param "api_key" c in
      if default_str (param "mode" p) "fastgpt" == "search"
      then get_values (append_text base "/api/v1/search")
          (λ values.
            copy_params (λ k. k == "mode") value_of p
              (count_values "limit" 0 q (insert "q" (value_of q.text) values)))
          (with_key "Authorization" "Bot " key accept_json)
      else post_json (append_text base "/api/v0/fastgpt") (("query", text q.text) ∷ [])
          (with_key "Authorization" "Bot " key json_headers)

  unfoldable pub build_semanticscholar : Query → Dict String → Dict String → Option (Request F)
  build_semanticscholar q c p =
      let fields = default_str (param "fields" p) "title,abstract,url,year,citationCount,tldr" in
      get_values
        (append_text (base_of "https://api.semanticscholar.org" p) "/graph/v1/paper/search")
        (λ values.
          copy_params (λ k. k == "fields") value_of p
            (count_values "limit" 100 q
              (insert "fields" (value_of fields) (insert "query" (value_of q.text) values))))
        (with_key "x-api-key" "" (param "api_key" c) accept_json)

  unfoldable pub build_github : Query → Dict String → Dict String → Option (Request F)
  build_github q c p =
      let search_type = default_str (param "search_type" p) "repositories" in
      let accept =
        if search_type == "code"
        then "application/vnd.github.text-match+json"
        else "application/vnd.github+json" in
      get_values
        (append_text (base_of "https://api.github.com" p)
          (append_text "/search/" (web.path_escape search_type)))
        (λ values.
          copy_params (λ k. k == "search_type") value_of p
            (count_values "per_page" 100 q (insert "q" (value_of q.text) values)))
        (with_key "Authorization" "Bearer " (param "api_key" c)
          (("Accept", accept) ∷ ("X-GitHub-Api-Version", "2022-11-28") ∷ []))

  -- the credentials are not read
  unfoldable pub build_stackexchange : Query → Dict String → Dict String → Option (Request F)
  build_stackexchange q c p =
      let site = default_str (param "site" p) "stackoverflow" in
      get_values (append_text (base_of "https://api.stackexchange.com" p) "/2.3/search/advanced")
        (λ values.
          copy_params (λ k. k == "site") value_of p
            (count_values "pagesize" 100 q (
              insert "filter" (value_of "withbody")
                (insert "site" (value_of site) (insert "q" (value_of q.text) values)))))
        accept_json

  abbrev pub azure_own_params : List String
  azure_own_params =
      "service_name" ∷ "index_name" ∷ "service" ∷ "index" ∷ "api_version" ∷ "query_type"
      ∷ "semanticConfiguration" ∷ "select" ∷ "auth_mode" ∷ "title_field" ∷ "url_field"
      ∷ "snippet_field" ∷ []

  unfoldable pub azure_select : Dict String → String
  azure_select p =
      let chosen = param "select" p in
      if chosen == ""
      then join
          (default_str (param "title_field" p) "title"
            ∷ default_str (param "url_field" p) "url"
            ∷ default_str (param "snippet_field" p) "description"
            ∷ [])
          ","
      else chosen

  -- the header of the key, or of a token of Entra; none if there is no token
  unfoldable pub azure_headers : Dict String → Dict String → Option (Dict String)
  azure_headers c p =
      let mode = to_lower (default_str (param "auth_mode" p) "api_key") in
      if contains_str ("aad" ∷ "entra" ∷ "oauth2" ∷ []) mode
      then elim (web.entra_token c) [
        | none ↦ none
        | some tok ↦ some (insert "Authorization" (append_text "Bearer " tok) json_headers)
      ]
      else some (with_key "api-key" "" (param "api_key" c) json_headers)

  unfoldable pub build_azure : Query → Dict String → Dict String → Option (Request F)
  build_azure q c p =
      let service = default_str (param "service_name" p) (param "service" p) in
      let index = default_str (param "index_name" p) (param "index" p) in
      let host = append_text "https://" (append_text service ".search.windows.net") in
      let version = default_str (param "api_version" p) "2024-07-01" in
      let address =
        join
          (base_of host p
            ∷ "/indexes/"
            ∷ web.path_escape index
            ∷ "/docs/search?api-version="
            ∷ web.query_escape version
            ∷ [])
          "" in
      let body = copy_params (contains_str azure_own_params) text p (
        insert "select" (text (azure_select p)) (
          with_count "top" 0 q (
            ("search", text q.text)
            ∷ ("queryType", text (default_str (param "query_type" p) "simple"))
            ∷ []))) in
      if service == "" || index == ""
      then none
      else elim (azure_headers c p) [ none ↦ none | some headers ↦ post_json address body headers ]

  unfoldable pub build_vectara : Query → Dict String → Dict String → Option (Request F)
  build_vectara q c p =
      let corpus = default_str (param "corpus_key" p) "" in
      let search =
        with_text "metadata_filter" (trim_space (param "metadata_filter" p))
          (with_count "limit" 0 q []) in
      if corpus == ""
      then none
      else post_json
          (append_text (base_of "https://api.vectara.io" p)
            (append_text "/v2/corpora/" (append_text (web.path_escape corpus) "/query")))
          (("query", text q.text)
            ∷ ("search", object (props_of search))
            ∷ ("stream_response", boolean false)
            ∷ [])
          (with_key "x-api-key" "" (param "api_key" c) json_headers)

  -- the signature that Kendra wants is not made
  unfoldable pub build_kendra : Query → Dict String → Dict String → Option (Request F)
  build_kendra q c p = none
