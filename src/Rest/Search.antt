-- ===== src/Rest/Search.antt =====
-- Search and extractRows of internal/providers/rest.go. The rate limiter, the exchange with the upstream, the
-- decoding of JSON and the redaction of texts are parameters. The reason why a request cannot be built is
-- left out of the error.
use serpent_seek.Prelude.{
  ℤ, pos, String, true, not, ◌||◌, Option, none, some, List, Dict, ◌==◌, if◌then◌else◌, trim_space,
  append_text, itoa, join,
}
use mathlib.Core.List as L
use serpent_seek.Rest.Results.{
  Answer, Ended, returns, panicked, Throttle, unthrottled, hinted, backs_off, plain, said,
  max_rps_param, extract_rows, float_at, is_set, backoff_message, succeeded,
}
use serpent_seek.Models.{Result}
use serpent_seek.Rest.Json.{Json, Floats}
use serpent_seek.Rest.Texts.{cut_bytes}
use serpent_seek.Rest.Params.{param, parse_int_csv, contains_int}
use serpent_seek.Rest.Classify.{
  TransportError, classify_transport, http_classify, is_json_status, retry_after_header_ms,
}
use serpent_seek.Rest.Spec.{Query, Request, Web, RestSpec, extracted, panics}
use serpent_seek.Rest.Build.{build_request}

-- what Do and ReadBody return
pub data Exchange : Type 0 where
  failed : TransportError → Exchange
  unread : ℤ → String → Exchange
  answered : Answer → Exchange

-- what a driver is given
pub record Driver (F : Type 0) : Type 0 where
  -- the wait for a token of the bucket of a driver and its rate
  pub wait : String → F → Option TransportError
  pub exchange : Request F → Exchange
  -- parseJSONObject
  pub parse_object : String → Option (Dict (Json F))
  pub redact : String → String
  -- the time up to a date, in milliseconds
  pub until : String → Option ℤ
  -- strings.Fields
  pub fields : String → List String

module _ {F : Type 0} (go : Floats F) (web : Web) (driver : Driver F) where
  -- HTTPError and trimBody
  unfoldable pub http_error : ℤ → String → String → String
  http_error status reason body =
      let excerpt = driver.redact (cut_bytes 160 (join (driver.fields body) " ")) in
      trim_space (join (L.◌∷◌ "HTTP" (L.◌∷◌ (itoa status) (L.◌∷◌ reason (L.◌∷◌ excerpt L.[])))) " ")

  -- WaitLimit
  unfoldable pub wait_limit : String → F → Option TransportError
  wait_limit code rps = if go.above_zero rps then driver.wait code rps else none

  unfoldable pub throttle : RestSpec F → Answer → Throttle
  throttle spec a =
      if spec.throttle_key == "" then unthrottled else elim (driver.parse_object a.body) [
        | none ↦ unthrottled
        | some body ↦ elim (float_at spec.throttle_key body) [
          | none ↦ unthrottled
          | some backoff ↦
              if not (go.above_zero backoff)
              then unthrottled
              else if not (is_json_status a.status)
                  || is_set "error_id" body
                  || is_set "error_name" body
              then backs_off (record (plain spec.code "api") {
                http_status = a.status;
                retry_after_ms = go.to_millis backoff;
                error = backoff_message go spec backoff body;
              })
              else hinted (go.to_millis backoff)
        ]
      ]

  -- the answer of a status that is not one of success
  unfoldable pub refused : RestSpec F → Dict String → Answer → Result
  refused spec params a =
      let fatal = parse_int_csv (param "fatal_http" params) spec.fatal_http in
      let (kind, permanent) =
        http_classify a.status (parse_int_csv (param "retry_http_codes" params) spec.retry_http) in
      record (plain spec.code kind) {
        permanent = permanent || contains_int fatal a.status;
        http_status = a.status;
        retry_after_ms = retry_after_header_ms driver.until a.retry_after;
        error = said spec.code (http_error a.status a.reason a.body);
      }

  -- Search, from the status on
  unfoldable pub read_answer : RestSpec F → Dict String → Answer → ℤ → Ended
  read_answer spec params a retry_ms =
      if not (is_json_status a.status)
      then returns (refused spec params a)
      else elim (driver.parse_object a.body) [
        | none ↦ returns (record (plain spec.code "json") {
          http_status = a.status;
          error = said spec.code (http_error a.status "body is not a json object" a.body);
        })
        | some body ↦ elim (extract_rows go spec body params) [
          | panics ↦ panicked
          | extracted rows ↦ returns (succeeded go spec a retry_ms body rows)
        ]
      ]

  -- Search, from the answer on
  unfoldable pub respond : RestSpec F → Dict String → Answer → Ended
  respond spec params a = elim (throttle spec a) [
    | backs_off r ↦ returns r
    | hinted ms ↦ read_answer spec params a ms
    | unthrottled ↦ read_answer spec params a (pos 0)
  ]

  unfoldable pub transport_failure : RestSpec F → TransportError → String → Result
  transport_failure spec e message = record (plain spec.code (classify_transport e)) {
    error = said spec.code message;
  }

  -- Search
  unfoldable pub search : RestSpec F → Query → Dict String → Dict String → Ended
  search spec q c params = elim (build_request web spec q c params) [
    | none ↦ returns (record (plain spec.code "api") {
      permanent = true;
      error = said spec.code "build request";
    })
    | some req ↦ elim (wait_limit spec.code (max_rps_param go params spec.max_rps)) [
      | some e ↦ returns (transport_failure spec e (append_text "rate limiter wait: " e.message))
      | none ↦ elim (driver.exchange req) [
        | failed e ↦ returns (transport_failure spec e (driver.redact e.message))
        | unread status message ↦ returns (record (plain spec.code "read") {
          http_status = status;
          error = said spec.code (append_text "body read failed: " (driver.redact message));
        })
        | answered a ↦ respond spec params a
      ]
    ]
  ]
