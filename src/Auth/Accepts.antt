-- ===== src/Auth/Accepts.antt =====
-- Which keys and requests internal/auth/middleware.go accepts, and what an accepted key may do.
use mathlib.Core.Path.{subst}
use serpent_seek.Prelude.{
  ℕ, ◌≤◌, or_else, none, has_prefix, to_lower, String, ◌≡◌, refl, ap, sym, ◌∙◌, ◌⊎◌, inl, inr, ◌↔◌,
  Bool, true, false, not, ◌&&◌, ◌||◌, Option, some, List, [], ◌∷◌, Dict, lookup, insert, any, ◌==◌,
  if◌then◌else◌, arith, trim_space, split, lookup-insert, eq_iff, Bool-cases, Option-cases,
}
use serpent_seek.Auth.Keys.{KeyKind, search, admin, developer, is_developer_kind, parse_key}
use serpent_seek.Auth.Identity.{User, Identity}
use serpent_seek.Auth.Storage.{ApiKey, Session, Storage, Env}
use serpent_seek.Auth.Sessions.{
  validate_csrf, lookup_session, IsFound, IsSafe, lookup_session-IsFound, validate_csrf-IsSafe,
}
use serpent_seek.Auth.Resolve.{
  session_identity, resolve_cookie, resolve_session, drop_text, Request, Resolved, anonymous,
  invalid, identified, served, add_scopes, scopes_of, refuses_key, key_expired, key_identity,
  resolve_stored, resolve_key, resolve, respond, authenticate, disabled_identity,
}

-- a key that was not revoked, has no expiry that has passed, and verifies the secret
pub record IsUsable (env : Env) (key : ApiKey) (secret : String) : Type 0 where
  pub unrevoked : key.revoked_at ≡ ""
  pub unexpired :
      (key.expires_at ≡ "")
      ⊎ (env.parse_time key.expires_at ≡ none)
      ⊎ ((expires : ℕ) × (env.parse_time key.expires_at ≡ some expires) × (env.now ≤ expires))
  pub verified : env.verify key.hash secret ≡ true

-- the scopes that come with a kind of key, and those that are stored with the key
abbrev pub kind_scopes : KeyKind → List String
kind_scopes search = "search" ∷ []
kind_scopes admin = "search" ∷ "admin" ∷ []
kind_scopes developer = "search" ∷ "admin" ∷ "read" ∷ "developer" ∷ []

abbrev pub grants : KeyKind → ApiKey → String → Bool
grants kind key scope =
    any (λ s. s == scope) (kind_scopes kind)
    || (not (scope == "") && any (λ part. trim_space part == scope) (split 44 key.scopes))

-- the identity of a key of a kind
pub record IsIdentity (env : Env) (kind : KeyKind) (key : ApiKey) (user : User) (id : Identity)
    : Type 0 where
  pub owner : id.user ≡ some user
  pub through : id.via ≡ "key"
  pub of_key : id.key_id ≡ key.id
  pub chain : id.chain_id ≡ key.chain_id
  pub scoped : (scope : String) → or_else (lookup scope id.scopes) false ≡ grants kind key scope

-- all that a token must pass to be resolved to an identity
pub record Accepts {S : Type 0} (st : Storage S) (env : Env) (token : String) (s : S)
    (id : Identity) : Type 0 where
  pub kind : KeyKind
  pub prefix : String
  pub secret : String
  pub key : ApiKey
  pub user : User
  pub parsed : parse_key token ≡ some (kind, prefix, secret)
  pub mode_on : ¬ (kind ≡ developer) ⊎ (env.developer_mode ≡ true)
  pub stored : st.get_api_key_by_prefix prefix s ≡ some key
  pub usable : IsUsable env key secret
  pub owner : st.get_user key.user_id s ≡ some user
  pub enabled : user.disabled ≡ false
  pub identity : id ≡ key_identity env kind key user
  pub rights : IsIdentity env kind key user id

refuses_key_lem :
    (env : Env) (key : ApiKey) (secret : String)
    → (refuses_key env key secret ≡ false) ↔ IsUsable env key secret
unfolding refuses_key key_expired
refuses_key_lem env key secret =
    let revoked = eq_iff key.revoked_at "" in
    let endless = eq_iff key.expires_at "" in
    elim (Option-cases (env.parse_time key.expires_at)) [
      | inl unread ↦ (
        λ h. record {
          unrevoked = ground (arith, h, revoked);
          unexpired = inr (inl unread);
          verified = ground (arith, h);
        },
        λ good.
            let fine = good.unrevoked in
            let secret_ok = good.verified in ground (arith, fine, secret_ok, revoked, unread),
      )
      | inr (t, read) ↦ (
        λ h. record {
          unrevoked = ground (arith, h, revoked);
          unexpired = elim (Bool-cases (key.expires_at == "")) [
            | inl blank ↦ inl (ground (arith, blank, endless))
            | inr set ↦ inr (inr (t, read, ground (arith, h, set, read)))
          ];
          verified = ground (arith, h);
        },
        λ good.
            let fine = good.unrevoked in
            let secret_ok = good.verified in
            elim good.unexpired [
              | inl blank ↦ ground (arith, fine, secret_ok, revoked, blank, endless)
              | inr (inl unread) ↦ absurd (ground (arith, unread, read))
              | inr (inr (later, at, le)) ↦ ground (arith, fine, secret_ok, revoked, read, at, le)
            ],
      )
    ]

developer_lem :
    (kind : KeyKind) (mode : Bool)
    → (is_developer_kind kind && not mode ≡ false) ↔ (¬ (kind ≡ developer) ⊎ (mode ≡ true))
developer_lem search mode = (λ h. inl (λ e. ground (arith, e)), λ e. refl)
developer_lem admin mode = (λ h. inl (λ e. ground (arith, e)), λ e. refl)
developer_lem developer mode = (
  λ h. inr (ground (arith, h)),
  λ e. elim e [ inl other ↦ absurd (other refl) | inr on ↦ ground (arith, on) ],
)

add_scopes_lem :
    (scope : String) (parts : List String) (scopes : Dict Bool)
    → or_else (lookup scope (add_scopes parts scopes)) false
      ≡ (not (scope == "") && any (λ part. trim_space part == scope) parts)
        || or_else (lookup scope scopes) false
unfolding add_scopes
add_scopes_lem scope [] scopes = ground arith
add_scopes_lem scope (part ∷ parts) scopes =
    let s = trim_space part in
    elim (Bool-cases (s == "")) [
      | inl blank ↦ rw blank (
          add_scopes_lem scope parts scopes
          ∙ ground (arith, eq_iff s "", eq_iff s scope, blank, eq_iff scope ""))
      | inr named ↦ rw named (
          add_scopes_lem scope parts (insert s true scopes)
          ∙ ground (
            arith,
            lookup-insert s scope true scopes,
            named,
            eq_iff s scope,
            eq_iff s "",
            eq_iff scope "",
          ))
    ]

scopes_of_lem :
    (kind : KeyKind) (key : ApiKey) (scope : String)
    → or_else (lookup scope (scopes_of kind key.scopes)) false ≡ grants kind key scope
unfolding scopes_of lookup
scopes_of_lem search key scope =
    let own = add_scopes (split 44 key.scopes) [] in
    ground
      (arith, lookup-insert "search" scope true own, add_scopes_lem scope (split 44 key.scopes) [])
scopes_of_lem admin key scope =
    let own = add_scopes (split 44 key.scopes) [] in
    ground (
      arith,
      lookup-insert "search" scope true (insert "admin" true own),
      lookup-insert "admin" scope true own,
      add_scopes_lem scope (split 44 key.scopes) [],
    )
scopes_of_lem developer key scope =
    let own = insert "admin" true (add_scopes (split 44 key.scopes) []) in
    let marked = insert "developer" true own in
    ground (
      arith,
      lookup-insert "search" scope true (insert "read" true marked),
      lookup-insert "read" scope true marked,
      lookup-insert "developer" scope true own,
      lookup-insert "admin" scope true (add_scopes (split 44 key.scopes) []),
      add_scopes_lem scope (split 44 key.scopes) [],
    )

key_identity-IsIdentity :
    (env : Env) (kind : KeyKind) (key : ApiKey) (user : User)
    → IsIdentity env kind key user (key_identity env kind key user)
unfolding key_identity
key_identity-IsIdentity env kind key user = record {
  owner = refl;
  through = refl;
  of_key = refl;
  chain = refl;
  scoped = λ scope. scopes_of_lem kind key scope;
}

resolve_stored_accepts :
    {S : Type 0} (st : Storage S) (env : Env) (kind : KeyKind) (secret : String) (key : ApiKey)
    (s : S) (id : Identity)
    → (resolve_stored st env kind secret key s).0 ≡ identified id
    → (user : User) × (refuses_key env key secret ≡ false)
      × (st.get_user key.user_id s ≡ some user)
      × (user.disabled ≡ false)
      × (id ≡ key_identity env kind key user)
unfolding resolve_stored
resolve_stored_accepts st env kind secret key s id h =
    elim (Option-cases (st.get_user key.user_id s)) [
      | inl missing ↦ absurd (ground (arith, h, missing))
      | inr (user, owner) ↦ (
        user,
        ground (arith, h, owner),
        owner,
        ground (arith, h, owner),
        ground (arith, h, owner),
      )
    ]

resolve_key-Accepts :
    {S : Type 0} (st : Storage S) (env : Env) (token : String) (s : S) (id : Identity)
    → (resolve_key st env token s).0 ≡ identified id
    → Accepts st env token s id
unfolding resolve_key
resolve_key-Accepts st env token s id h = elim (Option-cases (parse_key token)) [
  | inl bad ↦ absurd (ground (arith, h, bad))
  | inr ((kind, prefix, secret), parsed) ↦ elim (Option-cases (st.get_api_key_by_prefix prefix s)) [
    | inl missing ↦ absurd (ground (arith, h, parsed, missing))
    | inr (key, stored) ↦
        let mode_on : is_developer_kind kind && not env.developer_mode ≡ false =
          ground (arith, h, parsed) in
        let h' : (resolve_stored st env kind secret key s).0 ≡ identified id =
          rw (parsed, mode_on, stored, resolve_key) at h in
        let (user, usable, owner, enabled, identity) =
          resolve_stored_accepts st env kind secret key s id h' in
        record {
          kind = kind;
          prefix = prefix;
          secret = secret;
          key = key;
          user = user;
          parsed = parsed;
          mode_on = (developer_lem kind env.developer_mode).0 mode_on;
          stored = stored;
          usable = (refuses_key_lem env key secret).0 usable;
          owner = owner;
          enabled = enabled;
          identity = identity;
          rights =
              subst (IsIdentity env kind key user) (sym identity)
                (key_identity-IsIdentity env kind key user);
        }
  ]
]

first_else : {A B : Type 0} (x y : A × B) (b : Bool) → b ≡ false → (if b then x else y).0 ≡ y.0
first_else x y true h = absurd (ground (arith, h))
first_else x y false h = refl

Accepts-resolve_key :
    {S : Type 0} (st : Storage S) (env : Env) (token : String) (s : S) (id : Identity)
    → Accepts st env token s id
    → (resolve_key st env token s).0 ≡ identified id
unfolding resolve_key resolve_stored
Accepts-resolve_key st env token s id a =
    let id' = key_identity env a.kind a.key a.user in
    let s' = st.update_api_key (record a.key { last_used_at = env.format_time env.now }) s in
    let mode = (developer_lem a.kind env.developer_mode).1 a.mode_on in
    let usable = (refuses_key_lem env a.key a.secret).1 a.usable in
    rw (a.parsed, mode, a.stored, usable, a.owner, resolve_key, resolve_stored)
      (first_else (invalid, s) (identified id', s') a.user.disabled a.enabled
        ∙ ap identified (sym a.identity))

-- A token is resolved to an identity exactly if ParseKey reads it, developer mode is on if it is a developer's,
-- the key of its prefix is stored, was not revoked, has no readable expiry that has passed and verifies the
-- secret, and the key's user is stored and enabled. The identity is of the user and the key, and has the
-- scopes of the kind and those that are stored with the key.
pub resolve_key_lem :
    {S : Type 0} (st : Storage S) (env : Env) (token : String) (s : S) (id : Identity)
    → ((resolve_key st env token s).0 ≡ identified id) ↔ Accepts st env token s id
resolve_key_lem st env token s id =
    (resolve_key-Accepts st env token s id, Accepts-resolve_key st env token s id)

respond-served :
    (r : Request) (x : Resolved) (o : Option Identity)
    → respond r x ≡ served o
    → (id : Identity) × (o ≡ some id)
      × (x ≡ identified id)
      × (((id.via == "session") ≡ false)
          ⊎ (validate_csrf r.method r.csrf_cookie r.csrf_header ≡ true))
unfolding respond
respond-served r anonymous o h = absurd (ground (arith, h))
respond-served r invalid o h = absurd (ground (arith, h))
respond-served r (identified id) o h = (id, ground (arith, h), refl, ground (arith, h))

-- a request with a bearer token
abbrev pub is_bearer : Request → Bool
is_bearer r = has_prefix (to_lower r.authorization) "bearer "

abbrev pub HasSession : {S : Type 0} → Storage S → Env → Request → S → Identity → Type 0
HasSession st env r s id =
    (token : String) × (r.session_cookie ≡ some token)
    × ((token == "") ≡ false)
    × ((sess : Session) × (user : User) × IsFound st env token s sess user
        × (id ≡ session_identity user))

cookie_lem :
    {S : Type 0} (st : Storage S) (env : Env) (cookie : Option String) (s : S) (id : Identity)
    → (resolve_cookie st env cookie s).0 ≡ identified id
    → (token : String) × (cookie ≡ some token)
      × ((token == "") ≡ false)
      × ((sess : Session) × (user : User) × IsFound st env token s sess user
          × (id ≡ session_identity user))
unfolding resolve_cookie resolve_session
cookie_lem st env none s id h = absurd (ground (arith, h))
cookie_lem st env (some token) s id h = elim (Bool-cases (token == "")) [
  | inl blank ↦ absurd (ground (arith, h, blank))
  | inr filled ↦ elim (Option-cases (lookup_session st env token s).0) [
    | inl missing ↦ absurd (ground (arith, h, filled, missing))
    | inr ((sess, user), found) ↦
        let (old, was, rolled) = lookup_session-IsFound st env token s sess user found in
        (token, refl, filled, (old, user, was, ground (arith, h, filled, found)))
  ]
]

resolve_bearer :
    {S : Type 0} (st : Storage S) (env : Env) (r : Request) (s : S)
    → env.auth_enabled ≡ true
    → is_bearer r ≡ true
    → resolve st env r s ≡ resolve_key st env (trim_space (drop_text 7 r.authorization)) s
unfolding resolve
resolve_bearer st env r s on bearer = simp (on, bearer, resolve)

resolve_other :
    {S : Type 0} (st : Storage S) (env : Env) (r : Request) (s : S)
    → env.auth_enabled ≡ true
    → is_bearer r ≡ false
    → resolve st env r s ≡ resolve_cookie st env r.session_cookie s
unfolding resolve
resolve_other st env r s on other = simp (on, other, resolve)

-- While authentication is required, Authenticate serves a request only with an identity: that of the bearer token,
-- which must pass all that a token must; or without a bearer token, that of the session cookie, whose session is stored,
-- has a readable expiry that has not passed and an enabled user, and then only if the method is GET, HEAD or OPTIONS,
-- or the header repeats the cookie against forged requests, which is not empty.
pub authenticate-served :
    {S : Type 0} (st : Storage S) (env : Env) (r : Request) (s : S) (o : Option Identity)
    → env.auth_enabled ≡ true
    → (authenticate st env r s).0 ≡ served o
    → (id : Identity) × (o ≡ some id)
      × (((is_bearer r ≡ true) × Accepts st env (trim_space (drop_text 7 r.authorization)) s id)
          ⊎ ((is_bearer r ≡ false)
              × HasSession st env r s id
              × IsSafe r.method r.csrf_cookie r.csrf_header))
unfolding authenticate session_identity
authenticate-served st env r s o on h =
    let (resolved, s') = resolve st env r s in
    let answers =
      first_else (served (some disabled_identity), s) (respond r resolved, s')
        (not env.auth_enabled) (ap not on) in
    let (id, same, found, safe) = respond-served r resolved o (sym answers ∙ h) in
    elim (Bool-cases (is_bearer r)) [
      | inl bearer ↦
          let key : (resolve_key st env (trim_space (drop_text 7 r.authorization)) s).0
              ≡ identified id =
            ap (λ x. x.0) (sym (resolve_bearer st env r s on bearer)) ∙ found in
          (id, same, inl (bearer, resolve_key-Accepts st env _ s id key))
      | inr other ↦
          let cookie : (resolve_cookie st env r.session_cookie s).0 ≡ identified id =
            ap (λ x. x.0) (sym (resolve_other st env r s on other)) ∙ found in
          let (token, sent, filled, (sess, user, was, own)) =
            cookie_lem st env r.session_cookie s id cookie in
          let session : id.via ≡ "session" = ap (λ x. x.via) own in
          let valid : validate_csrf r.method r.csrf_cookie r.csrf_header ≡ true = elim safe [
            | inl through_key ↦
                absurd (ground (arith, through_key, session, eq_iff id.via "session"))
            | inr valid ↦ valid
          ] in
          (
            id,
            same,
            inr (
              other,
              (token, sent, filled, (sess, user, was, own)),
              validate_csrf-IsSafe r.method r.csrf_cookie r.csrf_header valid,
            ),
          )
    ]
