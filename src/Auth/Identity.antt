-- ===== src/Auth/Identity.antt =====
-- Identity of internal/auth/middleware.go and the permissions of developer tokens, with the guard of
-- endpoints in internal/httpd/permissions.go.
use serpent_seek.Prelude.{
  String, ◌≡◌, ◌↔◌, Bool, true, false, not, ◌||◌, Option, none, some, List, [], ◌∷◌, Dict, lookup,
  or_else, any, In, ◌==◌, if◌then◌else◌, arith, eq_iff, trim_space, append_text, trim_last,
}

-- models.go: User, without the quota that the HTTP layer computes
pub record User : Type 0 where
  pub id : String
  pub name : String
  pub role : String
  pub disabled : Bool
  pub created_at : String

pub record Identity : Type 0 where
  pub user : Option User
  pub scopes : Dict Bool
  pub via : String
  pub key_id : String
  pub developer : Bool
  pub permissions : List String
  pub chain_id : String

-- PermissionAll
abbrev pub permission_all : String
permission_all = "*"

-- HasScope; none is a nil identity
unfoldable pub has_scope : String → Option Identity → Bool
has_scope scope none = false
has_scope scope (some id) =
    if id.via == "disabled" then true else or_else (lookup scope id.scopes) false

-- IsAdmin
unfoldable pub is_admin : Option Identity → Bool
unfolding has_scope
is_admin = has_scope "admin"

-- IsDeveloper
unfoldable pub is_developer : Option Identity → Bool
is_developer none = false
is_developer (some id) = id.developer

-- the loop of IsFullAccess
unfoldable pub has_permission : String → List String → Bool
has_permission wanted = any (λ p. p == wanted)

-- IsFullAccess
unfoldable pub is_full_access : List String → Bool
is_full_access [] = true
is_full_access (p ∷ permissions) = has_permission permission_all (p ∷ permissions)

-- AllowsAll
unfoldable pub allows_all : Option Identity → Bool
allows_all none = true
allows_all (some id) = not id.developer || is_full_access id.permissions

-- AllowsEndpoint; the loop reads the permissions only of an identity that is not nil
unfoldable pub allows_endpoint : String → Option Identity → Bool
allows_endpoint endpoint none = true
allows_endpoint endpoint (some id) =
    if allows_all (some id) then true else has_permission endpoint id.permissions

-- ParsePermissions; json.Unmarshal into a list of texts is a parameter
unfoldable pub parse_permissions : (String → Option (List String)) → String → List String
parse_permissions unmarshal raw =
    let text = trim_space raw in
    if text == "" then [] else elim (unmarshal text) [ none ↦ [] | some permissions ↦ permissions ]

-- normalizeRoutePattern
unfoldable pub normalize_route_pattern : String → String
normalize_route_pattern pattern =
    if pattern == "" || pattern == "/" then pattern else trim_last pattern 47

-- alwaysAllowedEndpoints
unfoldable pub is_always_allowed : String → Bool
is_always_allowed endpoint = endpoint == "GET /api/me" || endpoint == "POST /api/auth/logout"

-- endpointAllowed, for the method in upper case and the route pattern that the router gives
unfoldable pub endpoint_allowed : String → String → Option Identity → Bool
endpoint_allowed method pattern none = true
endpoint_allowed method pattern (some id) =
    if not id.developer || allows_all (some id)
    then true
    else let endpoint = append_text method (append_text " " (normalize_route_pattern pattern)) in
      is_always_allowed endpoint || allows_endpoint endpoint (some id)

In-has_permission : (p : String) (ps : List String) → (has_permission p ps ≡ true) ↔ In p ps
unfolding has_permission
In-has_permission p [] = ground arith
In-has_permission p (q ∷ ps) = ground (arith, In-has_permission p ps, eq_iff q p, eq_iff p q)

-- The guard refuses an identity exactly if it is a developer token that lists permissions, without the
-- wildcard and the endpoint, and the endpoint is not one of the two that are always allowed.
endpoint_allowed_lem :
    (method pattern : String) (id : Identity)
    → (endpoint_allowed method pattern (some id) ≡ false) ↔ (
        (id.developer ≡ true)
        × (is_full_access id.permissions ≡ false)
        × ¬ In
            (append_text method (append_text " " (normalize_route_pattern pattern)))
            id.permissions
        × (is_always_allowed
              (append_text method (append_text " " (normalize_route_pattern pattern)))
            ≡ false))
unfolding endpoint_allowed allows_all allows_endpoint
endpoint_allowed_lem method pattern id =
    let endpoint = append_text method (append_text " " (normalize_route_pattern pattern)) in
    ground (arith, In-has_permission endpoint id.permissions)
