-- ===== src/Rest/Tests.antt =====
-- A driver whose upstream answers You.com's search without results, or with a page.
use serpent_seek.Prelude.{
  ℤ, pos, is_positive, String, ◌≡◌, refl, inl, inr, ◌⊎◌, ◌↔◌, true, false, none, some, [], ◌∷◌,
  Dict, All, In, ◌==◌, if◌then◌else◌, lookup, trim_space, split, IsUnique,
}
use serpent_seek.Models.{Row}
use serpent_seek.Rest.Json.{
  Json, text, array, object, elem, no_elems, prop, no_props, props_of, Floats, row_of, map_of,
  list_of, value_at, array_at, collect_rows, rows_of, to_row, linked, first_string, as_string,
}
use serpent_seek.Rest.Classify.{is_json_status, http_classify}
use serpent_seek.Rest.Spec.{Query, Url, Request, Web}
use serpent_seek.Rest.Build.{
  build_request, default_build, base_of, path_of, draft, set_auth, with_key,
}
use serpent_seek.Rest.Params.{param, default_str, contains_int, same_int, parse_int_csv, parse_csv}
use serpent_seek.Rest.Texts.{trim_right_code}
use serpent_seek.Config.Load.{csv_parts, ints_of}
use serpent_seek.Rest.Extracts.{extract_youcom}
use serpent_seek.Rest.Results.{Answer, extract_rows, max_rps_param, succeeded, counts_as_empty}
use serpent_seek.Rest.Search.{
  Driver, answered, throttle, search, wait_limit, respond, read_answer, refused,
}
use serpent_seek.Rest.Outcome.{Gets, ends_search, permanent_of, ok_of, is_panic}
use serpent_seek.Rest.Verdict.{IsFinal, IsReadable, search_permanent, search_ok}
use serpent_seek.Rest.Links.{IsLinked}
use serpent_seek.Rest.Catalog.{rest_specs}
use serpent_seek.Rest.Catalog.Serp.{brave, serper, youcom}
use serpent_seek.Rest.Table.{extract_rows-IsLinked}
use serpent_seek.Rest.Panics.{PanicsOn, search_panics}
use serpent_seek.Rest.Waits.{IsSuccess, AsksToWait}
use serpent_seek.Rest.Sent.{over, wrapped, sent_value}
use serpent_seek.Rest.Built.{default_build_query, default_build_body}

-- whole numbers for floating-point ones
abbrev whole : Floats ℤ
whole = record {
  to_int = λ n. n;
  to_millis = λ n. n;
  above_zero = is_positive;
  of_int = λ n. n;
  literal = λ n d. pos n;
  parse_float = λ s. none;
  max_texts = 1_000_000;
  to_json = λ v. "";
}

abbrev plain_web : Web
plain_web = record {
  parse_url = λ s. some (record { address = s; query = [] });
  path_escape = λ s. s;
  query_escape = λ s. s;
  basic_auth = λ login password. "Basic";
  entra_token = λ c. none;
}

abbrev page : Dict (Json ℤ)
page =
    (
      "web",
      object (
          prop "results"
            (array (
              elem (object (prop "url" (text "https://go.dev") (prop "title" (text "Go") no_props)))
                no_elems))
            no_props),
    )
    ∷ []

abbrev answer : ℤ → String → Answer
answer status body = record { status = status; reason = "reason"; retry_after = ""; body = body }

abbrev upstream : Answer → Driver ℤ
upstream a = record {
  wait = λ code rps. none;
  exchange = λ req. answered a;
  parse_object = λ s. if s == "page" then some page else if s == "{}" then some [] else none;
  redact = λ s. s;
  until = λ s. none;
  fields = λ s. s ∷ [];
}

abbrev go_query : Query
go_query = record { text = "go"; count = pos 30; lang = "de"; country = ""; extra = [] }

abbrev no_keys : Dict String
no_keys = []

youcom_listed : In (youcom whole plain_web) (rest_specs whole plain_web)
unfolding rest_specs
youcom_listed = inr (inr (inr (inr (inr (inl refl)))))

brave_listed : In (brave whole plain_web) (rest_specs whole plain_web)
unfolding rest_specs
brave_listed = inl refl

search_panics_example :
    (is_panic (
        search whole plain_web
          (upstream (answer (pos 200) "{}"))
          (youcom whole plain_web)
          go_query
          no_keys
          no_keys)
      ≡ true)
    ↔ ((a : Answer) × Gets whole plain_web
          (upstream (answer (pos 200) "{}"))
          (youcom whole plain_web)
          go_query
          no_keys
          no_keys
          a
        × ¬ AsksToWait whole plain_web (upstream (answer (pos 200) "{}")) (youcom whole plain_web) a
        × IsSuccess a.status
        × ((body : Dict (Json ℤ)) × ((upstream (answer (pos 200) "{}")).parse_object a.body
              ≡ some body)
            × PanicsOn whole plain_web (youcom whole plain_web) body))
search_panics_example =
    search_panics whole plain_web (upstream (answer (pos 200) "{}")) (youcom whole plain_web)
      go_query no_keys no_keys youcom_listed

search_permanent_example :
    (permanent_of (
        search whole plain_web
          (upstream (answer (pos 401) ""))
          (brave whole plain_web)
          go_query
          no_keys
          no_keys)
      ≡ true)
    ↔ ((build_request plain_web (brave whole plain_web) go_query no_keys no_keys ≡ none)
        ⊎ ((a : Answer) × Gets whole plain_web
              (upstream (answer (pos 401) ""))
              (brave whole plain_web)
              go_query
              no_keys
              no_keys
              a
            × (ends_search (
                  throttle whole plain_web
                    (upstream (answer (pos 401) ""))
                    (brave whole plain_web)
                    a)
                ≡ false)
            × IsFinal whole plain_web
                (upstream (answer (pos 401) ""))
                (brave whole plain_web)
                go_query
                no_keys
                no_keys
                a.status))
search_permanent_example =
    search_permanent whole plain_web (upstream (answer (pos 401) "")) (brave whole plain_web)
      go_query no_keys no_keys

search_ok_example :
    (ok_of (
        search whole plain_web
          (upstream (answer (pos 200) "page"))
          (brave whole plain_web)
          go_query
          no_keys
          no_keys)
      ≡ true)
    ↔ ((a : Answer) × Gets whole plain_web
          (upstream (answer (pos 200) "page"))
          (brave whole plain_web)
          go_query
          no_keys
          no_keys
          a
        × ¬ AsksToWait whole plain_web
            (upstream (answer (pos 200) "page"))
            (brave whole plain_web)
            a
        × IsReadable whole plain_web
            (upstream (answer (pos 200) "page"))
            (brave whole plain_web)
            go_query
            no_keys
            no_keys
            a)
search_ok_example =
    search_ok whole plain_web (upstream (answer (pos 200) "page")) (brave whole plain_web) go_query
      no_keys no_keys

-- the run of the example above, and the two before it
runs :
    (ok_of (
        search whole plain_web
          (upstream (answer (pos 200) "page"))
          (brave whole plain_web)
          go_query
          no_keys
          no_keys)
      ≡ true)
    × (permanent_of (
          search whole plain_web
            (upstream (answer (pos 401) ""))
            (brave whole plain_web)
            go_query
            no_keys
            no_keys)
        ≡ true)
    × (is_panic (
          search whole plain_web
            (upstream (answer (pos 200) "{}"))
            (youcom whole plain_web)
            go_query
            no_keys
            no_keys)
        ≡ true)
unfolding search build_request default_build draft set_auth with_key wait_limit max_rps_param
    respond throttle read_answer refused http_classify contains_int same_int parse_int_csv parse_csv
    csv_parts ints_of param default_str is_json_status succeeded counts_as_empty extract_rows brave
    youcom extract_youcom map_of list_of value_at array_at collect_rows rows_of to_row linked
    first_string as_string lookup split trim_space base_of path_of trim_right_code
runs = (refl, refl, refl)

abbrev go_row : Row
go_row = row_of "https://go.dev" "Go" ""

extract_rows-IsLinked_example : All IsLinked (go_row ∷ [])
unfolding brave extract_rows array_at value_at list_of map_of collect_rows rows_of to_row linked
    first_string as_string lookup trim_space
extract_rows-IsLinked_example =
    extract_rows-IsLinked whole plain_web (brave whole plain_web) page no_keys (go_row ∷ [])
      brave_listed refl

abbrev choices : Dict String
choices = ("freshness", "pd") ∷ ("base_url", "https://proxy.example/") ∷ []

choices-IsUnique : IsUnique choices
unfolding lookup
choices-IsUnique = (refl, (refl, tt))

abbrev page_url : Url
page_url = record { address = "https://proxy.example/res/v1/web/search"; query = [] }

default_build_query_example :
    (req : Request ℤ) × (default_build plain_web (brave whole plain_web) go_query no_keys choices
      ≡ some req)
    × (lookup "count" req.url.query
        ≡ over
            (wrapped (λ v. v ∷ []) (sent_value (brave whole plain_web) go_query choices "count"))
            (lookup "count" page_url.query))
unfolding brave base_of path_of default_str param lookup trim_right_code trim_space
default_build_query_example =
    default_build_query plain_web (brave whole plain_web) go_query no_keys choices page_url "count"
      choices-IsUnique refl refl refl

abbrev post_url : Url
post_url = record { address = "https://proxy.example/search"; query = [] }

default_build_body_example :
    (req : Request ℤ) × (fields : Dict (Json ℤ)) × (default_build plain_web
        (serper whole plain_web)
        go_query
        no_keys
        choices
      ≡ some req)
    × (req.body ≡ some (object (props_of fields)))
    × (lookup "hl" fields
        ≡ wrapped text (sent_value (serper whole plain_web) go_query choices "hl"))
unfolding serper base_of path_of default_str param lookup trim_right_code trim_space
default_build_body_example =
    default_build_body plain_web (serper whole plain_web) go_query no_keys choices post_url "hl"
      choices-IsUnique refl refl
