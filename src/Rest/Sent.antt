-- ===== src/Rest/Sent.antt =====
-- What a request of defaultBuild in internal/providers/rest.go sends.
use serpent_seek.Prelude.{
  String, ◌≡◌, refl, ap, sym, ◌∙◌, inl, inr, Bool, true, false, not, ◌&&◌, ◌||◌, Option, none, some,
  [], ◌∷◌, Dict, ◌==◌, if◌then◌else◌, arith, Bool-cases, lookup, insert, lookup-insert, eq_of_test,
  IsUnique,
}
use serpent_seek.Rest.Params.{is_internal_param}
use serpent_seek.Rest.Spec.{Query, RestSpec}
use serpent_seek.Rest.Build.{
  add, add_field, copy_params, add_fields, chooses_path, sent_fields, count_value,
}

-- what of the parameters is sent under a name
unfoldable pub sent_param : (String → Bool) → String → Dict String → Option String
sent_param skip k params = elim (lookup k params) [
  | none ↦ none
  | some v ↦ if is_internal_param k || v == "" || skip k then none else some v
]

-- the first of two values
abbrev pub over : {V : Type 0} → Option V → Option V → Option V
over (some v) w = some v
over none w = w

module _ {V : Type 0} (wrap : String → V) where
  abbrev pub wrapped : Option String → Option V
  wrapped none = none
  wrapped (some v) = some (wrap v)

  lookup-copy_params :
      (skip : String → Bool) (k : String) (params : Dict String) (m : Dict V)
      → IsUnique params
      → lookup k (copy_params skip wrap params m)
        ≡ over (wrapped (sent_param skip k params)) (lookup k m)
  unfolding copy_params sent_param lookup
  lookup-copy_params skip k [] m unique = refl
  lookup-copy_params skip k ((own, v) ∷ params) m (fresh, unique) =
      let rest = lookup-copy_params skip k params m unique in
      let apart = lookup-insert own k (wrap v) (copy_params skip wrap params m) in
      elim (Bool-cases (own == k)) [
        | inl same ↦
            let e = eq_of_test own k same in
            let absent : lookup k params ≡ none = ap (λ n. lookup n params) (sym e) ∙ fresh in
            elim (Bool-cases (is_internal_param own || v == "" || skip own)) [
              | inl skipped ↦
                  let also : (is_internal_param k || v == "" || skip k) ≡ true =
                    ap (λ n. is_internal_param n || v == "" || skip n) (sym e) ∙ skipped in
                  let sent : sent_param skip k ((own, v) ∷ params) ≡ none =
                    rw (same, also, sent_param, lookup) refl in
                  let before : sent_param skip k params ≡ none = rw (absent, sent_param) refl in
                  let shorter : copy_params skip wrap ((own, v) ∷ params) m
                      ≡ copy_params skip wrap params m =
                    rw (skipped, copy_params) refl in
                  ap (lookup k) shorter ∙ rest ∙ rw (before, sent) refl
              | inr copied ↦
                  let also : (is_internal_param k || v == "" || skip k) ≡ false =
                    ap (λ n. is_internal_param n || v == "" || skip n) (sym e) ∙ copied in
                  let sent : sent_param skip k ((own, v) ∷ params) ≡ some v =
                    rw (same, also, sent_param, lookup) refl in
                  let longer : copy_params skip wrap ((own, v) ∷ params) m
                      ≡ insert own (wrap v) (copy_params skip wrap params m) =
                    rw (copied, copy_params) refl in
                  ap (lookup k) longer ∙ apart ∙ rw (same, sent) refl
            ]
        | inr other ↦
            let sent : sent_param skip k ((own, v) ∷ params) ≡ sent_param skip k params =
              rw (other, sent_param, lookup) refl in
            elim (Bool-cases (is_internal_param own || v == "" || skip own)) [
              | inl skipped ↦
                  let shorter : copy_params skip wrap ((own, v) ∷ params) m
                      ≡ copy_params skip wrap params m =
                    rw (skipped, copy_params) refl in
                  ap (lookup k) shorter ∙ rest ∙ rw sent refl
              | inr copied ↦
                  let longer : copy_params skip wrap ((own, v) ∷ params) m
                      ≡ insert own (wrap v) (copy_params skip wrap params m) =
                    rw (copied, copy_params) refl in
                  ap (lookup k) longer ∙ apart ∙ rw (other, sent) rest
            ]
      ]

  lookup-add_field :
      (k key value : String) (m : Dict V)
      → lookup k (add_field wrap key value m) ≡ (
          if not (key == "") && not (value == "") && key == k
          then some (wrap value)
          else lookup k m)
  unfolding add_field add
  lookup-add_field k key value m = ground (arith, lookup-insert key k (wrap value) m)

-- the fields of the query and its hints, the one that is set last first
abbrev pub hints : {F : Type 0} → RestSpec F → Query → Dict String
hints spec q =
    (spec.country_field, q.country)
    ∷ (spec.lang_field, q.lang)
    ∷ (spec.count_field, count_value spec q)
    ∷ (spec.query_key, q.text)
    ∷ []

-- the first value of a name, of the ones that are not empty
abbrev pub first_hint : String → Dict String → Option String
first_hint k [] = none
first_hint k ((key, value) ∷ fields) =
    let rest = first_hint k fields in
    if not (key == "") && not (value == "") && key == k then some value else rest

-- what a request sends under a name: the parameter, or else the field of the query
abbrev pub sent_value : {F : Type 0} → RestSpec F → Query → Dict String → String → Option String
sent_value spec q params k =
    over (sent_param (chooses_path spec) k params) (first_hint k (hints spec q))

over-wrapped :
    {V : Type 0} (wrap : String → V) (a b : Option String) (m : Option V)
    → over (wrapped wrap a) (over (wrapped wrap b) m) ≡ over (wrapped wrap (over a b)) m
over-wrapped wrap (some v) b m = refl
over-wrapped wrap none b m = refl

add_hint :
    {V : Type 0} (wrap : String → V) (k key value : String) (fields : Dict String) (m : Dict V)
    (x : Option V)
    → lookup k m ≡ over (wrapped wrap (first_hint k fields)) x
    → lookup k (add_field wrap key value m)
      ≡ over (wrapped wrap (first_hint k ((key, value) ∷ fields))) x
add_hint wrap k key value fields m x before =
    let added = lookup-add_field wrap k key value m in
    elim (Bool-cases (not (key == "") && not (value == "") && key == k)) [
      | inl here ↦ added ∙ rw here refl
      | inr other ↦ added ∙ rw other before
    ]

module _ {F V : Type 0} (wrap : String → V) (spec : RestSpec F) (q : Query) (k : String) where
  lookup-add_fields :
      (m : Dict V)
      → lookup k (add_fields wrap spec q m)
        ≡ over (wrapped wrap (first_hint k (hints spec q))) (lookup k m)
  unfolding add_fields
  lookup-add_fields m =
      let x = lookup k m in
      let query : Dict String = (spec.query_key, q.text) ∷ [] in
      let count : Dict String = (spec.count_field, count_value spec q) ∷ query in
      let lang : Dict String = (spec.lang_field, q.lang) ∷ count in
      add_hint wrap k spec.country_field q.country lang _ x (
        add_hint wrap k spec.lang_field q.lang count _ x (
          add_hint wrap k spec.count_field (count_value spec q) query _ x
            (add_hint wrap k spec.query_key q.text [] m x refl)))

  pub lookup-sent_fields :
      (params : Dict String) (m : Dict V)
      → IsUnique params
      → lookup k (sent_fields wrap spec q params m)
        ≡ over (wrapped wrap (sent_value spec q params k)) (lookup k m)
  unfolding sent_fields
  lookup-sent_fields params m unique =
      lookup-copy_params wrap (chooses_path spec) k params (add_fields wrap spec q m) unique
      ∙ ap (over (wrapped wrap (sent_param (chooses_path spec) k params))) (lookup-add_fields m)
      ∙ over-wrapped wrap (sent_param (chooses_path spec) k params) (first_hint k (hints spec q))
          (lookup k m)
