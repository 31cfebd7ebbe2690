-- ===== src/Rest/Waits.antt =====
-- The answers of success, and those that ask to wait in the way of an error, of Search in internal/providers/rest.go.
use serpent_seek.Prelude.{
  ℤ, pos, negsuc, ◌≤◌, ◌<◌, String, ◌≡◌, refl, ap, sym, ◌∙◌, inl, inr, ◌⊎◌, ◌↔◌, true, false, not,
  ◌||◌, none, some, Dict, lookup, ◌==◌, arith, Bool-cases, Option-cases, Option, or_else,
}
use serpent_seek.Rest.Json.{Json, null, number, Floats}
use serpent_seek.Rest.Classify.{is_json_status}
use serpent_seek.Rest.Spec.{Web, RestSpec}
use serpent_seek.Rest.Results.{Answer, float_at, is_set}
use serpent_seek.Rest.Search.{Driver, throttle}
use serpent_seek.Rest.Outcome.{ends_search, clash}

-- a status of 200 to 299
abbrev pub IsSuccess : ℤ → Type 0
IsSuccess (pos n) = (200 ≤ n) × (n < 300)
IsSuccess (negsuc n) = ⊥

pub is_json_status_lem : (status : ℤ) → (is_json_status status ≡ true) ↔ IsSuccess status
unfolding is_json_status
is_json_status_lem (pos n) = ground arith
is_json_status_lem (negsuc n) = ground arith

module _ {F : Type 0} (go : Floats F) (web : Web) (driver : Driver F) (spec : RestSpec F) where
  -- a field that is there and is not null
  abbrev pub HasField : String → Dict (Json F) → Type 0
  HasField key body = ¬ (lookup key body ≡ none) × ¬ (lookup key body ≡ some null)

  -- the wait of a field with a positive number, in an answer that is not of success or names an error
  abbrev pub AsksToWait : Answer → Type 0
  AsksToWait a =
      ((spec.throttle_key == "") ≡ false)
      × ((body : Dict (Json F)) × (driver.parse_object a.body ≡ some body)
          × ((backoff : F) × (lookup spec.throttle_key body ≡ some (number backoff))
              × (go.above_zero backoff ≡ true))
          × (¬ IsSuccess a.status ⊎ HasField "error_id" body ⊎ HasField "error_name" body))

  is_set_lem : (key : String) (body : Dict (Json F)) → (is_set key body ≡ true) ↔ HasField key body
  unfolding is_set
  is_set_lem key body = field_lem (lookup key body)
    where
      field_lem :
          (o : Option (Json F))
          → (elim o [ none ↦ false | some null ↦ false | _ ↦ true ] ≡ true)
            ↔ (¬ (o ≡ none) × ¬ (o ≡ some null))
      field_lem none = (λ h. ground (arith, h), λ (there, other). absurd (there refl))
      field_lem (some null) = (λ h. ground (arith, h), λ (there, other). absurd (other refl))
      field_lem (some v) = (λ h. (λ e. ground (arith, e), λ e. ground (arith, e)), λ there. refl)

  float_at_lem :
      (key : String) (body : Dict (Json F)) (f : F)
      → (float_at key body ≡ some f) ↔ (lookup key body ≡ some (number f))
  unfolding float_at
  float_at_lem key body f = number_lem (lookup key body)
    where
      number_lem :
          (o : Option (Json F))
          → (elim o [ some (number g) ↦ some g | _ ↦ none ] ≡ some f) ↔ (o ≡ some (number f))
      number_lem none = (λ h. ground (arith, h), λ h. ground (arith, h))
      number_lem (some (number g)) =
          (λ h. ap (λ o. some (number (or_else o g))) h, λ h. ground (arith, h))
      number_lem (some v) = (λ h. ground (arith, h), λ h. ground (arith, h))

  abbrev WaitsBy : Answer → Dict (Json F) → Type 0
  WaitsBy a body =
      ((backoff : F) × (lookup spec.throttle_key body ≡ some (number backoff))
        × (go.above_zero backoff ≡ true))
      × (¬ IsSuccess a.status ⊎ HasField "error_id" body ⊎ HasField "error_name" body)

  reason_lem :
      (a : Answer) (body : Dict (Json F))
      → ((not (is_json_status a.status) || is_set "error_id" body || is_set "error_name" body)
          ≡ true)
        ↔ (¬ IsSuccess a.status ⊎ HasField "error_id" body ⊎ HasField "error_name" body)
  reason_lem a body =
      let status = is_json_status_lem a.status in
      let id = is_set_lem "error_id" body in
      let name = is_set_lem "error_name" body in
      (
        λ h. elim (Bool-cases (is_json_status a.status)) [
          | inr failing ↦ inl (λ good. clash (status.1 good) refl failing)
          | inl good ↦ elim (Bool-cases (is_set "error_id" body)) [
            | inl set ↦ inr (inl (id.0 set))
            | inr unset ↦ inr (inr (name.0 (ground (arith, h, good, unset))))
          ]
        ],
        λ reason. elim reason [
          | inl failing ↦ elim (Bool-cases (is_json_status a.status)) [
            | inl good ↦ absurd (failing (status.0 good))
            | inr bad ↦ ground (arith, bad)
          ]
          | inr (inl set) ↦ let e = id.1 set in ground (arith, e)
          | inr (inr set) ↦ let e = name.1 set in ground (arith, e)
        ],
      )

  waits_lem :
      (a : Answer) (body : Dict (Json F))
      → (spec.throttle_key == "") ≡ false
      → driver.parse_object a.body ≡ some body
      → (ends_search (throttle go web driver spec a) ≡ true) ↔ WaitsBy a body
  unfolding throttle
  waits_lem a body on parsed = elim (Option-cases (float_at spec.throttle_key body)) [
    | inl missing ↦
        rw (on, parsed, missing, throttle)
          (
            λ h. ground (arith, h),
            λ ((f, at, large), reason).
                let e = (float_at_lem spec.throttle_key body f).1 at in
                absurd (ground (arith, missing, e)),
          )
    | inr (f, found) ↦ elim (Bool-cases (go.above_zero f)) [
      | inr low ↦
          rw (on, parsed, found, low, throttle)
            (
              λ h. ground (arith, h),
              λ ((g, at, large), reason).
                  let same : g ≡ f =
                    ap (λ o. or_else o g)
                      (sym ((float_at_lem spec.throttle_key body g).1 at) ∙ found) in
                  absurd (clash large (ap go.above_zero same) low),
            )
      | inl large ↦
          let reason = reason_lem a body in
          rw (on, parsed, found, large, throttle)
            (
              λ h. (
                (f, (float_at_lem spec.throttle_key body f).0 found, large),
                reason.0 (ground (arith, h)),
              ),
              λ (wait, why). let e = reason.1 why in ground (arith, e),
            )
    ]
  ]

  -- the hint ends the search exactly if the answer asks to wait
  ends_lem : (a : Answer) → (ends_search (throttle go web driver spec a) ≡ true) ↔ AsksToWait a
  unfolding throttle
  ends_lem a = elim (Bool-cases (spec.throttle_key == "")) [
    | inl off ↦ rw (off, throttle) (λ h. ground (arith, h), λ waits. ground (arith, waits.0))
    | inr on ↦ elim (Option-cases (driver.parse_object a.body)) [
      | inl broken ↦
          rw (on, broken, throttle)
            (λ h. ground (arith, h), λ (named, (body, e, wait, why)). absurd (ground (arith, e)))
      | inr (body, parsed) ↦ (
        λ h. let (wait, why) = (waits_lem a body on parsed).0 h in (on, (body, parsed, wait, why)),
        λ (named, (other, e, wait, why)). (waits_lem a other on e).1 (wait, why),
      )
    ]
  ]

  pub throttle_lem :
      (a : Answer) → (ends_search (throttle go web driver spec a) ≡ false) ↔ ¬ AsksToWait a
  throttle_lem a =
      let ends = ends_lem a in
      (
        λ free waits. clash (ends.1 waits) refl free,
        λ free. elim (Bool-cases (ends_search (throttle go web driver spec a))) [
          | inl stops ↦ absurd (free (ends.0 stops))
          | inr goes ↦ goes
        ],
      )
