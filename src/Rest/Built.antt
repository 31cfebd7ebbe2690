-- ===== src/Rest/Built.antt =====
-- What defaultBuild of internal/providers/rest.go sends: the query of a GET, and the body of a POST.
use serpent_seek.Prelude.{
  String, ◌≡◌, refl, ap, ◌∙◌, true, false, ◌&&◌, Option, none, some, [], ◌∷◌, Dict, ◌==◌, arith,
  lookup, lookup-insert, IsUnique, trim_space, append_text,
}
use serpent_seek.Rest.Json.{Json, text, object, props_of}
use serpent_seek.Rest.Params.{param}
use serpent_seek.Rest.Spec.{Query, Url, Request, Web, RestAuth, RestSpec}
use serpent_seek.Rest.Build.{base_of, path_of, sent_fields, draft, set_auth, default_build}
use serpent_seek.Rest.Sent.{over, wrapped, sent_value, lookup-sent_fields}

nothing_over : {V : Type 0} (x : Option V) → over x none ≡ x
nothing_over none = refl
nothing_over (some v) = refl

module _ {F : Type 0} (web : Web) (auth : RestAuth) (c : Dict String) where
  set_auth_body : (req : Request F) → (set_auth web auth c req).body ≡ req.body
  unfolding set_auth
  set_auth_body req = ground arith

  -- setAuth changes the query under the name of the credential only
  set_auth_query :
      (req : Request F) (k : String)
      → (auth.kind == "query" && auth.query_key == k) ≡ false
      → lookup k (set_auth web auth c req).url.query ≡ lookup k req.url.query
  unfolding set_auth
  set_auth_query req k apart = ground (
    arith,
    lookup-insert auth.query_key k (trim_space (param auth.cred_key c) ∷ []) req.url.query,
  )

module _ {F : Type 0} (web : Web) (spec : RestSpec F) (q : Query) (c params : Dict String)
    (url : Url) (k : String) where
  draft_query :
      spec.body ≡ false
      → (draft spec q params url).url.query ≡ sent_fields (λ v. v ∷ []) spec q params url.query
  unfolding draft
  draft_query bare = simp bare

  -- A request that defaultBuild makes for a driver without a body has under a name, which is not that of the credential,
  -- the parameter of this name, if it is not empty, not internal and does not choose the path; or else the field
  -- of the query or its hints that has the name and is not empty; or else what the URL has.
  pub default_build_query :
      IsUnique params
      → web.parse_url (append_text (base_of spec.base_url params) (path_of spec params)) ≡ some url
      → spec.body ≡ false
      → (spec.auth.kind == "query" && spec.auth.query_key == k) ≡ false
      → (req : Request F) × (default_build web spec q c params ≡ some req)
        × (lookup k req.url.query
            ≡ over (wrapped (λ v. v ∷ []) (sent_value spec q params k)) (lookup k url.query))
  unfolding default_build
  default_build_query unique parsed bare apart =
      let values = λ (v : String). v ∷ [] in
      let kept = set_auth_query web spec.auth c (draft spec q params url) k apart in
      (
        set_auth web spec.auth c (draft spec q params url),
        rw (parsed, default_build) refl,
        kept
            ∙ ap (lookup k) (draft_query bare)
            ∙ (lookup-sent_fields values spec q k params url.query unique),
      )

  -- A request that defaultBuild makes for a driver with a body has an object as its body, and under a name the
  -- parameter of this name, if it is not empty, not internal and does not choose the path, or else the field
  -- of the query or its hints that has the name and is not empty, and nothing else.
  pub default_build_body :
      IsUnique params
      → web.parse_url (append_text (base_of spec.base_url params) (path_of spec params)) ≡ some url
      → spec.body ≡ true
      → (req : Request F) × (fields : Dict (Json F)) × (default_build web spec q c params
          ≡ some req)
        × (req.body ≡ some (object (props_of fields)))
        × (lookup k fields ≡ wrapped text (sent_value spec q params k))
  unfolding default_build draft lookup
  default_build_body unique parsed full =
      let fields = sent_fields text spec q params [] in
      let sent = lookup-sent_fields text spec q k params [] unique in
      (
        set_auth web spec.auth c (draft spec q params url),
        fields,
        rw (parsed, default_build) refl,
        set_auth_body web spec.auth c (draft spec q params url) ∙ rw (full, draft) refl,
        sent ∙ nothing_over (wrapped text (sent_value spec q params k)),
      )
