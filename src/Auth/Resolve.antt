-- ===== src/Auth/Resolve.antt =====
-- internal/auth/middleware.go: Resolve, the resolution of keys and sessions, and the guards. The clock is
-- read once for each request.
use serpent_seek.Prelude.{
  ℕ, zero, suc, String, Bool, true, false, not, ◌&&◌, ◌||◌, Option, none, some, List, [], ◌∷◌, Dict,
  insert, ltb, ◌==◌, if◌then◌else◌, trim_space, to_lower, has_prefix, split, append_text,
}
use serpent_seek.Auth.Keys.{KeyKind, is_developer_kind, is_admin_kind, parse_key}
use serpent_seek.Auth.Identity.{User, Identity, has_scope, is_admin, parse_permissions}
use serpent_seek.Auth.Storage.{ApiKey, Storage, Env}
use serpent_seek.Auth.Sessions.{lookup_session, validate_csrf}

-- what the middleware reads of a request; a header that is not sent is the empty text
pub record Request : Type 0 where
  pub method : String
  pub authorization : String
  pub session_cookie : Option String
  pub csrf_cookie : Option String
  pub csrf_header : String

-- the results of Resolve: (nil, nil), (nil, ErrInvalidKey) or an identity
pub data Resolved : Type 0 where
  anonymous : Resolved
  invalid : Resolved
  identified : Identity → Resolved

-- what a request gets: the next handler with an identity, or an error
pub data Response : Type 0 where
  served : Option Identity → Response
  unauthorized : Response
  forbidden : String → Response

-- the loop over the parts of key.Scopes
unfoldable pub add_scopes : List String → Dict Bool → Dict Bool
add_scopes [] scopes = scopes
add_scopes (part ∷ parts) scopes =
    let s = trim_space part in add_scopes parts (if s == "" then scopes else insert s true scopes)

-- the scopes of a key of a kind
unfoldable pub scopes_of : KeyKind → String → Dict Bool
scopes_of kind csv =
    let own = add_scopes (split 44 csv) [] in
    let with_admin =
      if is_admin_kind kind || is_developer_kind kind then insert "admin" true own else own in
    let with_read =
      if is_developer_kind kind
      then insert "read" true (insert "developer" true with_admin)
      else with_admin in
    insert "search" true with_read

-- key.ExpiresAt names a moment that has passed
unfoldable pub key_expired : Env → ApiKey → Bool
key_expired env key =
    if key.expires_at == ""
    then false
    else elim (env.parse_time key.expires_at) [ none ↦ false | some expires ↦ ltb expires env.now ]

-- the reasons to refuse a stored key
unfoldable pub refuses_key : Env → ApiKey → String → Bool
refuses_key env key secret =
    if not (key.revoked_at == "")
    then true
    else if key_expired env key
    then true
    else not (env.verify key.hash secret)

unfoldable pub key_identity : Env → KeyKind → ApiKey → User → Identity
key_identity env kind key user = record {
  user = some user;
  scopes = scopes_of kind key.scopes;
  via = "key";
  key_id = key.id;
  developer = is_developer_kind kind;
  permissions =
      if is_developer_kind kind then parse_permissions env.unmarshal key.permissions else [];
  chain_id = key.chain_id;
}

abbrev pub disabled_identity : Identity
disabled_identity = record {
  user = none;
  scopes = ("admin", true) ∷ ("search", true) ∷ ("read", true) ∷ [];
  via = "disabled";
  key_id = "";
  developer = false;
  permissions = [];
  chain_id = "";
}

unfoldable pub session_identity : User → Identity
session_identity user = record {
  user = some user;
  scopes =
      if user.role == "admin"
      then ("search", true) ∷ ("read", true) ∷ ("admin", true) ∷ []
      else ("search", true) ∷ ("read", true) ∷ [];
  via = "session";
  key_id = "";
  developer = false;
  permissions = [];
  chain_id = "";
}

-- header[7:], of a text of at least seven characters
unfoldable pub drop_text : ℕ → String → String
drop_text zero s = s
drop_text (suc n) String.[] = ""
drop_text (suc n) (String.◌∷◌ c s) = drop_text n s

-- the answer of Authenticate for a resolved request
unfoldable pub respond : Request → Resolved → Response
respond r anonymous = unauthorized
respond r invalid = unauthorized
respond r (identified id) =
    if id.via == "session" && not (validate_csrf r.method r.csrf_cookie r.csrf_header)
    then forbidden "csrf validation failed"
    else served (some id)

module _ {S : Type 0} (st : Storage S) (env : Env) where
  -- resolveKey from the stored key on
  unfoldable pub resolve_stored : KeyKind → String → ApiKey → S → Resolved × S
  resolve_stored kind secret key s =
      if refuses_key env key secret then (invalid, s) else elim (st.get_user key.user_id s) [
        | none ↦ (invalid, s)
        | some user ↦ if user.disabled then (invalid, s) else (
          identified (key_identity env kind key user),
          st.update_api_key (record key { last_used_at = env.format_time env.now }) s,
        )
      ]

  -- resolveKey
  unfoldable pub resolve_key : String → S → Resolved × S
  resolve_key token s = elim (parse_key token) [
    | none ↦ (invalid, s)
    | some (kind, prefix, secret) ↦
        if is_developer_kind kind && not env.developer_mode
        then (invalid, s)
        else elim (st.get_api_key_by_prefix prefix s) [
          | none ↦ (invalid, s)
          | some key ↦ resolve_stored kind secret key s
        ]
  ]

  -- resolveSession
  unfoldable pub resolve_session : String → S → Resolved × S
  resolve_session token s =
      let (found, s') = lookup_session st env token s in
      elim found [
        | none ↦ (invalid, s')
        | some (sess, user) ↦ (identified (session_identity user), s')
      ]

  -- the cookie of Resolve
  unfoldable pub resolve_cookie : Option String → S → Resolved × S
  resolve_cookie none s = (anonymous, s)
  resolve_cookie (some value) s = if value == "" then (anonymous, s) else resolve_session value s

  -- Resolve
  unfoldable pub resolve : Request → S → Resolved × S
  resolve r s =
      if not env.auth_enabled
      then (identified disabled_identity, s)
      else if has_prefix (to_lower r.authorization) "bearer "
      then resolve_key (trim_space (drop_text 7 r.authorization)) s
      else resolve_cookie r.session_cookie s

  -- Authenticate
  unfoldable pub authenticate : Request → S → Response × S
  authenticate r s =
      if not env.auth_enabled
      then (served (some disabled_identity), s)
      else let (resolved, s') = resolve r s in (respond r resolved, s')

  -- Optional
  unfoldable pub optional : Request → S → Response × S
  optional r s =
      let (resolved, s') = resolve r s in
      elim resolved [
        | identified id ↦ (served (some id), s')
        | invalid ↦ (served none, s')
        | anonymous ↦ (served none, s')
      ]

-- RequireScope, for the identity in the request's context
unfoldable pub require_scope : String → Option Identity → Response
require_scope scope id =
    if has_scope scope id
    then served id
    else forbidden (append_text "scope " (append_text scope " required"))

-- RequireAdmin
unfoldable pub require_admin : Option Identity → Response
require_admin id = if is_admin id then served id else forbidden "admin scope required"
