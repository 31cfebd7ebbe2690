-- ===== src/Rest/Build.antt =====
-- defaultBuild and setAuth of internal/providers/rest.go. Go ranges over the parameters in any order: here the
-- one that stands first is set last. The URL that is written and parsed again is the same.
use serpent_seek.Prelude.{
  ℕ, pos, is_positive, to_ℕ, String, Bool, not, ◌&&◌, ◌||◌, Option, none, some, [], ◌∷◌, Dict,
  insert, lookup, ltb, ◌==◌, if◌then◌else◌, trim_space, append_text, itoa,
}
use serpent_seek.Rest.Json.{text, object, props_of}
use serpent_seek.Rest.Texts.{trim_right_code}
use serpent_seek.Rest.Params.{param, default_str, is_internal_param}
use serpent_seek.Rest.Spec.{Query, Url, Request, Web, RestAuth, RestSpec}

module _ {V : Type 0} where
  -- add
  unfoldable pub add : (String → V) → String → String → Dict V → Dict V
  add wrap key value m = if value == "" then m else insert key (wrap value) m

  -- a field without a name is not sent
  unfoldable pub add_field : (String → V) → String → String → Dict V → Dict V
  add_field wrap key value m = if key == "" then m else add wrap key value m

  -- the loop over the parameters
  unfoldable pub copy_params : (String → Bool) → (String → V) → Dict String → Dict V → Dict V
  copy_params skip wrap [] m = m
  copy_params skip wrap ((k, v) ∷ params) m =
      let rest = copy_params skip wrap params m in
      if is_internal_param k || v == "" || skip k then rest else insert k (wrap v) rest

-- one header after another
unfoldable pub set_headers : Dict String → Dict String → Dict String
set_headers [] headers = headers
set_headers ((k, v) ∷ more) headers = insert k v (set_headers more headers)

-- the smaller one of a count and a cap, where 0 is no cap
unfoldable pub capped : ℕ → ℕ → ℕ
capped cap count = if ltb 0 cap && ltb cap count then cap else count

-- strings.TrimRight(defaultStr(params["base_url"], base), "/")
unfoldable pub base_of : String → Dict String → String
base_of base params = trim_right_code 47 (default_str (param "base_url" params) base)

-- req.Header.Set(name, prefix + v) for a credential that is not blank
unfoldable pub with_key : String → String → String → Dict String → Dict String
with_key name prefix credential headers =
    let v = trim_space credential in
    if v == "" then headers else insert name (append_text prefix v) headers

module _ {F : Type 0} where
  -- setAuth
  unfoldable pub set_auth : Web → RestAuth → Dict String → Request F → Request F
  set_auth web auth c req =
      let credential = param auth.cred_key c in
      if auth.kind == "header"
      then record req { headers = with_key auth.header "" credential req.headers }
      else if auth.kind == "bearer"
      then record req { headers = with_key "Authorization" "Bearer " credential req.headers }
      else if auth.kind == "api-key"
      then record req { headers = with_key "Authorization" "Api-Key " credential req.headers }
      else if auth.kind == "query"
      then (if trim_space credential == "" then req else record req {
        url = record req.url {
          query = insert auth.query_key (trim_space credential ∷ []) req.url.query;
        };
      })
      else if auth.kind == "basic"
      then (let login = trim_space (param auth.login_key c) in
          let password = trim_space (param auth.password_key c) in
          if login == "" then req else record req {
            headers = insert "Authorization" (web.basic_auth login password) req.headers;
          })
      else req

  -- the path, which a parameter may choose
  unfoldable pub path_of : RestSpec F → Dict String → String
  path_of spec params =
      if spec.path_param == "" || param spec.path_param params == ""
      then spec.path
      else elim (lookup (param spec.path_param params) spec.path_map) [
        | none ↦ spec.path
        | some alt ↦ alt
      ]

  unfoldable pub count_value : RestSpec F → Query → String
  count_value spec q =
      if is_positive q.count then itoa (pos (capped spec.count_cap (to_ℕ q.count))) else ""

  -- the fields of the query and of its hints
  unfoldable pub add_fields : {V : Type 0} → (String → V) → RestSpec F → Query → Dict V → Dict V
  add_fields wrap spec q m = add_field wrap spec.country_field q.country (
      add_field wrap spec.lang_field q.lang (
        add_field wrap spec.count_field (count_value spec q)
          (add_field wrap spec.query_key q.text m)))

  -- the parameter that chooses the path is not sent
  unfoldable pub chooses_path : RestSpec F → String → Bool
  chooses_path spec k = not (spec.path_param == "") && k == spec.path_param

  unfoldable pub sent_fields :
      {V : Type 0} → (String → V) → RestSpec F → Query → Dict String → Dict V → Dict V
  sent_fields wrap spec q params m =
      copy_params (chooses_path spec) wrap params (add_fields wrap spec q m)

  -- the request before setAuth
  unfoldable pub draft : RestSpec F → Query → Dict String → Url → Request F
  draft spec q params url =
      if spec.body
      then record {
        method = spec.method;
        url = url;
        body = some (object (props_of (sent_fields text spec q params [])));
        headers =
            set_headers spec.headers
              (insert "Content-Type" "application/json" (("Accept", "application/json") ∷ []));
      }
      else record {
        method = spec.method;
        url = record url { query = sent_fields (λ v. v ∷ []) spec q params url.query };
        body = none;
        headers = set_headers spec.headers (("Accept", "application/json") ∷ []);
      }

  -- defaultBuild
  unfoldable pub default_build :
      Web → RestSpec F → Query → Dict String → Dict String → Option (Request F)
  default_build web spec q c params =
      elim (web.parse_url (append_text (base_of spec.base_url params) (path_of spec params))) [
        | none ↦ none
        | some url ↦ some (set_auth web spec.auth c (draft spec q params url))
      ]

  -- buildRequest
  unfoldable pub build_request :
      Web → RestSpec F → Query → Dict String → Dict String → Option (Request F)
  build_request web spec q c params = elim spec.build [
    | none ↦ default_build web spec q c params
    | some build ↦ build q c params
  ]
