-- ===== src/Rest/Results.antt =====
-- Search and extractRows of internal/providers/rest.go: the results, the rows of an answer and its hints.
use serpent_seek.Prelude.{
  ℤ, pos, String, Bool, true, false, Option, none, some, List, [], ◌∷◌, ◌++◌, Dict, length, lookup,
  eqb, ◌==◌, if◌then◌else◌, append_text, itoa, or_else,
}
use serpent_seek.Models.{Row, Result}
use serpent_seek.Rest.Json.{Json, null, number, Floats, as_string, array_at, collect_rows}
use serpent_seek.Rest.Params.{param}
use serpent_seek.Rest.Spec.{RestSpec, Extracted, extracted}

-- an answer of which the body has been read, up to the limit
pub record Answer : Type 0 where
  pub status : ℤ
  pub reason : String
  pub retry_after : String
  pub body : String

-- how Search ends
pub data Ended : Type 0 where
  returns : Result → Ended
  panicked : Ended

-- the hint to wait: none, one that comes with a result, or an error with the time to wait
pub data Throttle : Type 0 where
  unthrottled : Throttle
  hinted : ℤ → Throttle
  backs_off : Result → Throttle

-- the zero Result of a driver, of a kind
abbrev pub plain : String → String → Result
plain provider kind = record {
  ok = false;
  rows = [];
  kind = kind;
  error = "";
  permanent = false;
  http_status = pos 0;
  engine = "";
  provider = provider;
  retry_after_ms = pos 0;
  quota_remaining = pos 0;
  quota_max = pos 0;
  has_quota = false;
  answer = "";
}

abbrev pub said : String → String → String
said code message = append_text code (append_text ": " message)

module _ {F : Type 0} where
  -- v.(float64)
  unfoldable pub float_at : String → Dict (Json F) → Option F
  float_at key body = elim (lookup key body) [ some (number f) ↦ some f | _ ↦ none ]

  -- data[key] != nil
  unfoldable pub is_set : String → Dict (Json F) → Bool
  is_set key body = elim (lookup key body) [ none ↦ false | some null ↦ false | _ ↦ true ]

module _ {F : Type 0} (go : Floats F) where
  -- maxRPSParam
  unfoldable pub max_rps_param : Dict String → F → F
  max_rps_param params def =
      let v = param "max_rps" params in if v == "" then def else or_else (go.parse_float v) def

  -- extractRows
  unfoldable pub merge : RestSpec F → Dict (Json F) → List (List String) → List Row
  merge spec body [] = []
  merge spec body (path ∷ paths) =
      collect_rows go (array_at body path) spec.link_keys spec.title_key spec.snippet_keys
      ++ merge spec body paths

  unfoldable pub extract_rows : RestSpec F → Dict (Json F) → Dict String → Extracted
  extract_rows spec body params = elim spec.extract_p [
    | some f ↦ f body params
    | none ↦ elim spec.extract [
      | some f ↦ f body
      | none ↦
          if eqb (length spec.merge_paths) 0
          then extracted (
              collect_rows go (array_at body spec.result_path) spec.link_keys spec.title_key
                spec.snippet_keys)
          else extracted (merge spec body spec.merge_paths)
    ]
  ]

  unfoldable pub backoff_message : RestSpec F → F → Dict (Json F) → String
  backoff_message spec backoff body =
      let name = as_string go (lookup "error_name" body) in
      let message = as_string go (lookup "error_message" body) in
      let start = said spec.code (
        append_text name
          (append_text " backs off for " (append_text (itoa (go.to_int backoff)) "s"))) in
      let more =
        if message == ""
        then start
        else append_text start (append_text " (" (append_text message ")")) in
      elim (float_at "quota_remaining" body) [
        | none ↦ more
        | some quota ↦ append_text more (append_text " quota_remaining=" (itoa (go.to_int quota)))
      ]

  -- whether the rows of an answer count as none
  unfoldable pub counts_as_empty : RestSpec F → Dict (Json F) → List Row → Bool
  counts_as_empty spec body rows = elim spec.is_empty [
    | none ↦ eqb (length rows) 0
    | some f ↦ f body rows
  ]

  -- the result of a body that is an object
  unfoldable pub succeeded : RestSpec F → Answer → ℤ → Dict (Json F) → List Row → Result
  succeeded spec a retry_ms body rows =
      let quota = float_at "quota_remaining" body in
      let found = record (plain spec.code "ok") {
        ok = true;
        rows = rows;
        http_status = a.status;
        retry_after_ms = retry_ms;
        quota_remaining = elim quota [ none ↦ pos 0 | some f ↦ go.to_int f ];
        quota_max = elim (float_at "quota_max" body) [ none ↦ pos 0 | some f ↦ go.to_int f ];
        has_quota = elim quota [ none ↦ false | some f ↦ true ];
      } in
      if counts_as_empty spec body rows then record found { kind = "empty"; rows = [] } else found
