-- ===== src/Rest/Outcome.antt =====
-- How Search of internal/providers/rest.go ends: which results are permanent failures, and which are successes.
use serpent_seek.Prelude.{
  ℤ, pos, String, ◌≡◌, refl, ap, sym, ◌∙◌, inl, inr, ◌⊎◌, Bool, true, false, ◌||◌, none, some, List,
  Dict, arith, Option-cases,
}
use serpent_seek.Models.{Row, Result}
use serpent_seek.Rest.Json.{Floats}
use serpent_seek.Rest.Classify.{TransportError}
use serpent_seek.Rest.Spec.{Query, Request, Web, RestSpec, Extracted, extracted, panics}
use serpent_seek.Rest.Build.{build_request}
use serpent_seek.Rest.Results.{
  Answer, Ended, returns, panicked, Throttle, unthrottled, hinted, backs_off, max_rps_param,
}
use serpent_seek.Rest.Search.{
  Exchange, failed, unread, answered, Driver, wait_limit, throttle, read_answer, respond, search,
  transport_failure,
}

-- whether a search is a failure that is not to be tried again
abbrev pub permanent_of : Ended → Bool
permanent_of (returns r) = r.permanent
permanent_of panicked = false

abbrev pub ok_of : Ended → Bool
ok_of (returns r) = r.ok
ok_of panicked = false

abbrev pub is_panic : Ended → Bool
is_panic (returns r) = false
is_panic panicked = true

pub Exchange-cases :
    (x : Exchange)
    → ((e : TransportError) × (x ≡ failed e))
      ⊎ ((status : ℤ) × (message : String) × (x ≡ unread status message))
      ⊎ ((a : Answer) × (x ≡ answered a))
Exchange-cases (failed e) = inl (e, refl)
Exchange-cases (unread status message) = inr (inl (status, message, refl))
Exchange-cases (answered a) = inr (inr (a, refl))

-- whether the hint to wait ends the search
abbrev pub ends_search : Throttle → Bool
ends_search unthrottled = false
ends_search (hinted ms) = false
ends_search (backs_off r) = true

-- a flag of the result that the hint ends the search with
abbrev pub flagged : Throttle → Bool
flagged unthrottled = false
flagged (hinted ms) = false
flagged (backs_off r) = r.ok || r.permanent

pub clash : {a b : Bool} → a ≡ true → a ≡ b → ¬ (b ≡ false)
clash h e n = ground (arith, h, e, n)

pub Throttle-cases :
    (t : Throttle)
    → (t ≡ unthrottled) ⊎ ((ms : ℤ) × (t ≡ hinted ms)) ⊎ ((r : Result) × (t ≡ backs_off r))
Throttle-cases unthrottled = inl refl
Throttle-cases (hinted ms) = inr (inl (ms, refl))
Throttle-cases (backs_off r) = inr (inr (r, refl))

pub Extracted-cases : (x : Extracted) → (x ≡ panics) ⊎ ((rows : List Row) × (x ≡ extracted rows))
Extracted-cases panics = inl refl
Extracted-cases (extracted rows) = inr (rows, refl)

module _ {F : Type 0} (go : Floats F) (web : Web) (driver : Driver F) (spec : RestSpec F)
    (q : Query) (c params : Dict String) where
  -- the upstream answers a request that could be built and was let through
  abbrev pub Gets : Answer → Type 0
  Gets a =
      (req : Request F) × (build_request web spec q c params ≡ some req)
      × (wait_limit go web driver spec.code (max_rps_param go params spec.max_rps) ≡ none)
      × (driver.exchange req ≡ answered a)

  search-Gets :
      (a : Answer)
      → Gets a
      → search go web driver spec q c params ≡ respond go web driver spec params a
  unfolding search
  search-Gets a (req, built, through, answer) = rw (built, through, answer, search) refl

  -- the answer that ends a search at once is neither a success nor a permanent failure
  throttle_flags : (a : Answer) → flagged (throttle go web driver spec a) ≡ false
  unfolding throttle
  throttle_flags a = ground arith

  backs_off_flags :
      (a : Answer) (r : Result)
      → throttle go web driver spec a ≡ backs_off r
      → (r.ok ≡ false) × (r.permanent ≡ false)
  backs_off_flags a r e =
      let low : (r.ok || r.permanent) ≡ false = sym (ap flagged e) ∙ throttle_flags a in
      ground (arith, low)

  -- a flag of the answer comes from its status and its body
  pub respond_flag :
      (flag : Ended → Bool) (a : Answer)
      → ((r : Result) → r.ok ≡ false → r.permanent ≡ false → flag (returns r) ≡ false)
      → flag (respond go web driver spec params a) ≡ true
      → (ends_search (throttle go web driver spec a) ≡ false)
        × ((ms : ℤ) × (flag (read_answer go web driver spec params a ms) ≡ true))
  unfolding respond
  respond_flag flag a low h = elim (Throttle-cases (throttle go web driver spec a)) [
    | inl free ↦ (ap ends_search free, (pos 0, rw (free, respond) at h))
    | inr (inl (ms, waits)) ↦ (ap ends_search waits, (ms, rw (waits, respond) at h))
    | inr (inr (r, ended)) ↦
        let (failing, soft) = backs_off_flags a r ended in
        let end : respond go web driver spec params a ≡ returns r = rw (ended, respond) refl in
        absurd (clash h (ap flag end) (low r failing soft))
  ]

  -- and an answer that does not end the search at once is read
  respond_reads :
      (a : Answer)
      → ends_search (throttle go web driver spec a) ≡ false
      → (ms : ℤ) × (respond go web driver spec params a
          ≡ read_answer go web driver spec params a ms)
  unfolding respond
  respond_reads a free = elim (Throttle-cases (throttle go web driver spec a)) [
    | inl none_ ↦ (pos 0, rw (none_, respond) refl)
    | inr (inl (ms, waits)) ↦ (ms, rw (waits, respond) refl)
    | inr (inr (r, ended)) ↦ absurd (clash (ap ends_search ended) refl free)
  ]

  -- a search whose flag is set comes from an answer, or from a request that cannot be built
  pub search_flag :
      (flag : Ended → Bool)
      → ((r : Result) → r.ok ≡ false → r.permanent ≡ false → flag (returns r) ≡ false)
      → flag (search go web driver spec q c params) ≡ true
      → (build_request web spec q c params ≡ none)
        ⊎ ((a : Answer) × Gets a × (flag (respond go web driver spec params a) ≡ true))
  unfolding search transport_failure
  search_flag flag low h = elim (Option-cases (build_request web spec q c params)) [
    | inl refused_ ↦ inl refused_
    | inr (req, built) ↦
        elim (Option-cases
          (wait_limit go web driver spec.code (max_rps_param go params spec.max_rps))) [
            | inr (e, waits) ↦
                let stuck = rw (built, waits, search) at h in
                absurd (clash stuck refl (low _ refl refl))
            | inl through ↦ elim (Exchange-cases (driver.exchange req)) [
              | inl (e, lost) ↦
                  let stuck = rw (built, through, lost, search) at h in
                  absurd (clash stuck refl (low _ refl refl))
              | inr (inl (status, message, lost)) ↦
                  let stuck = rw (built, through, lost, search) at h in
                  absurd (clash stuck refl (low _ refl refl))
              | inr (inr (a, answer)) ↦
                  let gets : Gets a = (req, built, through, answer) in
                  inr (a, gets, sym (ap flag (search-Gets a gets)) ∙ h)
            ]
          ]
  ]

  -- a search whose request got an answer that was read has the flags of the reading
  pub search_reads :
      (flag : Ended → Bool) (a : Answer)
      → Gets a
      → ends_search (throttle go web driver spec a) ≡ false
      → ((ms : ℤ) → flag (read_answer go web driver spec params a ms) ≡ true)
      → flag (search go web driver spec q c params) ≡ true
  search_reads flag a gets free read =
      let (ms, reads) = respond_reads a free in ap flag (search-Gets a gets ∙ reads) ∙ read ms
