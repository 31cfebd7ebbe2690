-- ===== src/Rest/Classify.antt =====
-- internal/providers/httpclient.go: what an upstream's answer means, and the text of an HTTP error.
use serpent_seek.Prelude.{
  ◌*◌, ℤ, pos, negsuc, is_negative, String, Bool, true, false, ◌||◌, ◌&&◌, Option, none, some, List,
  leb, ltb, ◌==◌, if◌then◌else◌, trim_space, to_lower, atoi,
}
use serpent_seek.Rest.Texts.{contains_text, wrap_int}
use serpent_seek.Rest.Params.{contains_int}

-- an error of a connection: whether it is context.DeadlineExceeded, whether it is a net.Error that timed out,
-- and its text
pub record TransportError : Type 0 where
  pub deadline_exceeded : Bool
  pub net_timeout : Bool
  pub message : String

-- ClassifyTransport
unfoldable pub classify_transport : TransportError → String
classify_transport e =
    let msg = to_lower e.message in
    if e.deadline_exceeded || e.net_timeout
    then "timeout"
    else if contains_text msg "timeout"
        || contains_text msg "timed out"
        || contains_text msg "deadline exceeded"
    then "timeout"
    else "net"

-- HTTPClassify
unfoldable pub http_classify : ℤ → List ℤ → String × Bool
http_classify status retry_codes =
    if contains_int retry_codes status then ("http", false) else elim status [
      | pos n ↦ if leb 500 n then ("http", false) else ("http", true)
      | negsuc n ↦ ("http", true)
    ]

-- IsJSONStatus
unfoldable pub is_json_status : ℤ → Bool
is_json_status (pos n) = leb 200 n && ltb n 300
is_json_status (negsuc n) = false

-- retryAfterHeaderMS; `until` is the time up to a date, in milliseconds, if the text is one
unfoldable pub retry_after_header_ms : (String → Option ℤ) → String → ℤ
retry_after_header_ms until header =
    let h = trim_space header in
    if h == "" then pos 0 else elim (atoi h) [
      | some (negsuc n) ↦ pos 0
      | some (pos n) ↦ wrap_int (n * 1000)
      | none ↦ elim (until h) [ none ↦ pos 0 | some d ↦ if is_negative d then pos 0 else d ]
    ]
