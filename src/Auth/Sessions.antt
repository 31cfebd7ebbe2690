-- ===== src/Auth/Sessions.antt =====
-- internal/auth/sessions.go and internal/auth/csrf.go: browser sessions and the double-submit token.
use mathlib.Core.Path.{subst}
use serpent_seek.Prelude.{
  ℕ, ◌+◌, ◌*◌, ◌≤◌, String, ◌≡◌, refl, ap, ◌∙◌, ◌⊎◌, inl, inr, Bool, true, false, ◌||◌, Option,
  none, some, ltb, ◌==◌, if◌then◌else◌, arith, Option-cases, Bool-cases, eq_iff,
}
use serpent_seek.Auth.Identity.{User}
use serpent_seek.Auth.Storage.{Session, Storage, Env}

-- SessionTTL, thirty days
abbrev pub session_ttl : ℕ
session_ttl = 30 * 24 * 3_600_000_000_000

-- the expiry cannot be read, or has passed
unfoldable pub has_expired : Env → Session → Bool
has_expired env sess = elim (env.parse_time sess.expires_at) [
  | none ↦ true
  | some expires ↦ ltb expires env.now
]

module _ {S : Type 0} (st : Storage S) (env : Env) where
  -- CreateSession, for the new id and the random token; none where a step fails
  unfoldable pub create_session :
      Option String → String → String → String → String → S → Option (String × S)
  create_session none id user_id ip ua s = none
  create_session (some token) id user_id ip ua s =
      elim (st.create_session
        (record {
          id = id;
          user_id = user_id;
          token_hash = env.hash_token token;
          created_at = env.format_time env.now;
          expires_at = env.format_time (env.now + session_ttl);
          ip = ip;
          ua = ua;
        })
        s) [ none ↦ none | some s' ↦ some (token, s') ]

  -- LookupSession: the session and its user, and the state afterwards
  unfoldable pub lookup_session : String → S → Option (Session × User) × S
  lookup_session token s =
      if token == ""
      then (none, s)
      else elim (st.get_session_by_token_hash (env.hash_token token) s) [
        | none ↦ (none, s)
        | some sess ↦
            if has_expired env sess
            then (none, st.delete_session sess.id s)
            else elim (st.get_user sess.user_id s) [
              | none ↦ (none, s)
              | some user ↦
                  if user.disabled
                  then (none, s)
                  else let rolled = env.format_time (env.now + session_ttl) in
                    (
                      some (record sess { expires_at = rolled }, user),
                      st.update_session_expiry sess.id rolled s,
                    )
            ]
      ]

-- ValidateCSRF: the method, the cookie and the header
unfoldable pub validate_csrf : String → Option String → String → Bool
validate_csrf method cookie header =
    if method == "GET" || method == "HEAD" || method == "OPTIONS" then true else elim cookie [
      | none ↦ false
      | some value ↦ if value == "" || header == "" then false else value == header
    ]

abbrev pub rolled : Env → Session → Session
rolled env sess = record sess { expires_at = env.format_time (env.now + session_ttl) }

-- what a session that is found had to pass
pub record IsFound {S : Type 0} (st : Storage S) (env : Env) (token : String) (s : S)
    (sess : Session) (user : User) : Type 0 where
  pub stored : st.get_session_by_token_hash (env.hash_token token) s ≡ some sess
  pub fresh : (t : ℕ) × (env.parse_time sess.expires_at ≡ some t) × (env.now ≤ t)
  pub owner : st.get_user sess.user_id s ≡ some user
  pub enabled : user.disabled ≡ false

fresh_lem :
    (env : Env) (sess : Session)
    → has_expired env sess ≡ false
    → (t : ℕ) × (env.parse_time sess.expires_at ≡ some t) × (env.now ≤ t)
unfolding has_expired
fresh_lem env sess h = elim (Option-cases (env.parse_time sess.expires_at)) [
  | inl unread ↦ absurd (ground (arith, h, unread))
  | inr (t, read) ↦ (t, read, ground (arith, h, read))
]

-- A lookup that succeeds returns the user of a stored session that has not expired, and the user is
-- enabled; the session's expiry is moved to thirty days from now.
pub lookup_session-IsFound :
    {S : Type 0} (st : Storage S) (env : Env) (token : String) (s : S) (sess : Session)
    (user : User)
    → (lookup_session st env token s).0 ≡ some (sess, user)
    → (old : Session) × IsFound st env token s old user × (sess ≡ rolled env old)
unfolding lookup_session
lookup_session-IsFound st env token s sess user h =
    elim (Option-cases (st.get_session_by_token_hash (env.hash_token token) s)) [
      | inl missing ↦ absurd (ground (arith, h, missing))
      | inr (old, stored) ↦ elim (Option-cases (st.get_user old.user_id s)) [
        | inl missing ↦ absurd (ground (arith, h, stored, missing))
        | inr (found, owner) ↦
            let parts : (has_expired env old ≡ false)
                × (found.disabled ≡ false)
                × (sess ≡ rolled env old)
                × (found ≡ user) =
              ground (arith, h, stored, owner) in
            (
              old,
              subst (λ u. IsFound st env token s old u) parts.3
                  (record {
                    stored = stored;
                    fresh = fresh_lem env old parts.0;
                    owner = owner;
                    enabled = parts.1;
                  }),
              parts.2,
            )
      ]
    ]

-- what the database promises of a session that it has taken
pub record IsKept {S : Type 0} (st : Storage S) : Type 0 where
  pub kept :
      (sess : Session) (s s' : S)
      → st.create_session sess s ≡ some s'
      → st.get_session_by_token_hash sess.token_hash s' ≡ some sess

-- The token of a new session finds its user for thirty days, if the user is stored and enabled, the token
-- is not empty, and a formatted time can be read back.
pub lookup_session-create_session :
    {S : Type 0} (st : Storage S) (env : Env) (token id user_id ip ua : String) (s s' : S)
    (user : User) (later : ℕ)
    → IsKept st
    → ((t : ℕ) → env.parse_time (env.format_time t) ≡ some t)
    → (token == "") ≡ false
    → create_session st env (some token) id user_id ip ua s ≡ some (token, s')
    → st.get_user user_id s' ≡ some user
    → user.disabled ≡ false
    → later ≤ env.now + session_ttl
    → (sess : Session) × ((lookup_session st (record env { now = later }) token s').0
        ≡ some (sess, user))
unfolding lookup_session create_session has_expired
lookup_session-create_session st env token id user_id ip ua s s' user later kept times filled made
      owner enabled soon =
    let new : Session = record {
      id = id;
      user_id = user_id;
      token_hash = env.hash_token token;
      created_at = env.format_time env.now;
      expires_at = env.format_time (env.now + session_ttl);
      ip = ip;
      ua = ua;
    } in
    let taken : st.create_session new s ≡ some s' = elim (Option-cases (st.create_session new s)) [
      | inl refused ↦ absurd (ground (arith, made, refused))
      | inr (t, e) ↦ e ∙ ap some (ground (arith, made, e))
    ] in
    let found = kept.kept new s s' taken in
    let alive : has_expired (record env { now = later }) new ≡ false =
      ground (arith, times (env.now + session_ttl), soon) in
    (rolled (record env { now = later }) new, rw (filled, found, alive, owner, enabled) refl)

-- a method that changes nothing, or a cookie that is not empty with the same text in the header
abbrev pub IsSafe : String → Option String → String → Type 0
IsSafe method cookie header =
    (method ≡ "GET")
    ⊎ (method ≡ "HEAD")
    ⊎ (method ≡ "OPTIONS")
    ⊎ ((cookie ≡ some header) × ¬ (header ≡ ""))

pub validate_csrf-IsSafe :
    (method : String) (cookie : Option String) (header : String)
    → validate_csrf method cookie header ≡ true
    → IsSafe method cookie header
unfolding validate_csrf
validate_csrf-IsSafe method cookie header h =
    let get = eq_iff method "GET" in
    let head = eq_iff method "HEAD" in
    let options = eq_iff method "OPTIONS" in
    elim (Bool-cases (method == "GET")) [
      | inl here ↦ inl (ground (arith, here, get))
      | inr no_get ↦ elim (Bool-cases (method == "HEAD")) [
        | inl here ↦ inr (inl (ground (arith, here, head)))
        | inr no_head ↦ elim (Bool-cases (method == "OPTIONS")) [
          | inl here ↦ inr (inr (inl (ground (arith, here, options))))
          | inr no_options ↦ elim (Option-cases cookie) [
            | inl missing ↦ absurd (ground (arith, h, no_get, no_head, no_options, missing))
            | inr (value, there) ↦
                let same : value ≡ header =
                  ground (arith, h, no_get, no_head, no_options, there, eq_iff value header) in
                inr (
                  inr (
                    inr (
                      there ∙ ap some same,
                      λ blank.
                          ground
                            (arith, h, no_get, no_head, no_options, there, blank, eq_iff header ""),
                    )))
          ]
        ]
      ]
    ]
