-- ===== src/Rest/Verdict.antt =====
-- Which ends of Search of internal/providers/rest.go are permanent failures, and which are successes.
use serpent_seek.Prelude.{
  ℤ, pos, negsuc, String, ◌≡◌, refl, ap, sym, ◌∙◌, inl, inr, ◌⊎◌, ◌↔◌, Bool, true, false, not, ◌||◌,
  none, some, List, Dict, arith, Bool-cases, Option-cases, or_else, leb,
}
use serpent_seek.Models.{Row}
use serpent_seek.Rest.Json.{Json, Floats}
use serpent_seek.Rest.Params.{param, parse_int_csv, contains_int}
use serpent_seek.Rest.Classify.{is_json_status, http_classify}
use serpent_seek.Rest.Spec.{Query, Web, RestSpec, extracted, panics}
use serpent_seek.Rest.Build.{build_request}
use serpent_seek.Rest.Results.{Answer, extract_rows, succeeded}
use serpent_seek.Rest.Search.{Driver, throttle, refused, read_answer, search}
use serpent_seek.Rest.Waits.{IsSuccess, AsksToWait, throttle_lem, is_json_status_lem}
use serpent_seek.Rest.Outcome.{
  permanent_of, ok_of, clash, ends_search, Extracted-cases, Gets, search_flag, respond_flag,
  search_reads,
}

abbrev pub is_server_error : ℤ → Bool
is_server_error (pos n) = leb 500 n
is_server_error (negsuc n) = false

classify_lem :
    (status : ℤ) (codes : List ℤ)
    → (http_classify status codes).1 ≡ not (contains_int codes status || is_server_error status)
unfolding http_classify
classify_lem (pos n) codes = ground arith
classify_lem (negsuc n) codes = ground arith

module _ {F : Type 0} (go : Floats F) (web : Web) (driver : Driver F) (spec : RestSpec F)
    (q : Query) (c params : Dict String) where
  abbrev pub fatal_codes : List ℤ
  fatal_codes = parse_int_csv (param "fatal_http" params) spec.fatal_http

  abbrev pub retry_codes : List ℤ
  retry_codes = parse_int_csv (param "retry_http_codes" params) spec.retry_http

  -- the status is of a failure that is not to be tried again
  abbrev pub IsFinal : ℤ → Type 0
  IsFinal status =
      (is_json_status status ≡ false)
      × ((contains_int fatal_codes status ≡ true)
          ⊎ ((contains_int retry_codes status ≡ false) × (is_server_error status ≡ false)))

  refused_permanent :
      (a : Answer)
      → ((refused go web driver spec params a).permanent ≡ true) ↔ (
          (contains_int fatal_codes a.status ≡ true)
          ⊎ ((contains_int retry_codes a.status ≡ false) × (is_server_error a.status ≡ false)))
  unfolding refused
  refused_permanent a =
      let classified = classify_lem a.status retry_codes in ground (arith, classified)

  succeeded_flags :
      (a : Answer) (ms : ℤ) (body : Dict (Json F)) (rows : List Row)
      → ((succeeded go spec a ms body rows).ok ≡ true)
        × ((succeeded go spec a ms body rows).permanent ≡ false)
  unfolding succeeded
  succeeded_flags a ms body rows = ground arith

  read_permanent :
      (a : Answer) (ms : ℤ)
      → (permanent_of (read_answer go web driver spec params a ms) ≡ true) ↔ IsFinal a.status
  unfolding read_answer
  read_permanent a ms =
      let refusal = refused_permanent a in
      elim (Bool-cases (is_json_status a.status)) [
        | inr failing ↦
            rw (failing, read_answer) (λ h. (refl, refusal.0 h), λ final. refusal.1 final.1)
        | inl success ↦ elim (Option-cases (driver.parse_object a.body)) [
          | inl broken ↦
              rw (success, broken, read_answer)
                (λ h. ground (arith, h), λ final. ground (arith, final))
          | inr (body, parsed) ↦ elim (Extracted-cases (extract_rows go spec body params)) [
            | inl panic ↦
                rw (success, parsed, panic, read_answer)
                  (λ h. ground (arith, h), λ final. ground (arith, final))
            | inr (rows, found) ↦
                let low = (succeeded_flags a ms body rows).1 in
                rw (success, parsed, found, read_answer)
                  (λ h. absurd (clash h refl low), λ final. ground (arith, final))
          ]
        ]
      ]

  -- the body of an answer of success is an object of which rows are extracted
  abbrev pub IsReadable : Answer → Type 0
  IsReadable a =
      IsSuccess a.status
      × ((body : Dict (Json F)) × (rows : List Row) × (driver.parse_object a.body ≡ some body)
          × (extract_rows go spec body params ≡ extracted rows))

  read_ok :
      (a : Answer) (ms : ℤ)
      → (ok_of (read_answer go web driver spec params a ms) ≡ true) ↔ IsReadable a
  unfolding read_answer refused
  read_ok a ms =
      let status = is_json_status_lem a.status in
      elim (Bool-cases (is_json_status a.status)) [
        | inr failing ↦
            rw (failing, read_answer)
              (λ h. ground (arith, h), λ good. absurd (clash (status.1 good.0) refl failing))
        | inl success ↦ elim (Option-cases (driver.parse_object a.body)) [
          | inl broken ↦
              rw (success, broken, read_answer)
                (
                  λ h. ground (arith, h),
                  λ (fine, (body, rows, parsed, found)). absurd (ground (arith, parsed)),
                )
          | inr (body, parsed) ↦ elim (Extracted-cases (extract_rows go spec body params)) [
            | inl panic ↦
                rw (success, parsed, panic, read_answer)
                  (
                    λ h. ground (arith, h),
                    λ (fine, (other, rows, same, found)).
                        let one : body ≡ other = ap (λ o. or_else o body) same in
                        let both : panics ≡ extracted rows =
                          sym panic ∙ ap (λ b. extract_rows go spec b params) one ∙ found in
                        absurd (ground (arith, both)),
                  )
            | inr (rows, found) ↦
                rw (success, parsed, found, read_answer)
                  (
                    λ h. (status.0 success, (body, rows, refl, found)),
                    λ good. (succeeded_flags a ms body rows).0,
                  )
          ]
        ]
      ]

  -- A search ends with a permanent failure exactly if the request cannot be built, or if the upstream's answer
  -- is not one of success, does not ask to wait, and has a fatal status or one that is neither to be
  -- tried again nor a server's error.
  pub search_permanent : (permanent_of (search go web driver spec q c params) ≡ true) ↔ (
      (build_request web spec q c params ≡ none)
      ⊎ ((a : Answer) × Gets go web driver spec q c params a
          × (ends_search (throttle go web driver spec a) ≡ false)
          × IsFinal a.status))
  unfolding search
  search_permanent = (
    λ h. elim (search_flag go web driver spec q c params permanent_of (λ r failing soft. soft) h) [
      | inl unbuilt ↦ inl unbuilt
      | inr (a, gets, flag) ↦
          let (free, (ms, read)) =
            respond_flag go web driver spec q c params permanent_of a (λ r failing soft. soft)
              flag in
          inr (a, gets, free, (read_permanent a ms).0 read)
    ],
    λ reason. elim reason [
      | inl unbuilt ↦ rw (unbuilt, search) refl
      | inr (a, gets, free, final) ↦
          search_reads go web driver spec q c params permanent_of a gets free
            (λ ms. (read_permanent a ms).1 final)
    ],
  )

  -- A search succeeds exactly if the upstream's answer has a status from 200 to 299, its body is an object of which
  -- rows are extracted, and it does not ask to wait in the way of an error: with a positive number in the driver's
  -- field for it, beside a name or an id of an error.
  pub search_ok : (ok_of (search go web driver spec q c params) ≡ true) ↔ (
      (a : Answer) × Gets go web driver spec q c params a
      × ¬ AsksToWait go web driver spec a
      × IsReadable a)
  unfolding search
  search_ok = (
    λ h. elim (search_flag go web driver spec q c params ok_of (λ r failing soft. failing) h) [
      | inl unbuilt ↦ absurd (ground (arith, (rw (unbuilt, search) at h)))
      | inr (a, gets, flag) ↦
          let (free, (ms, read)) =
            respond_flag go web driver spec q c params ok_of a (λ r failing soft. failing) flag in
          (a, gets, (throttle_lem go web driver spec a).0 free, (read_ok a ms).0 read)
    ],
    λ (a, gets, free, readable).
        search_reads go web driver spec q c params ok_of a gets
          ((throttle_lem go web driver spec a).1 free) (λ ms. (read_ok a ms).1 readable),
  )
