-- ===== src/Auth/Storage.antt =====
-- The part of the Storage interface of internal/store/store.go that internal/auth calls, and the records
-- of internal/store/models.go that it moves. A failed query and a missing row are the same to the
-- callers: none.
use serpent_seek.Prelude.{ℕ, String, Bool, Option, List}
use serpent_seek.Auth.Identity.{User}

pub record ApiKey : Type 0 where
  pub id : String
  pub user_id : String
  pub user_name : String
  pub name : String
  pub prefix : String
  pub hash : String
  pub scopes : String
  pub chain_id : String
  pub permissions : String
  pub last_used_at : String
  pub expires_at : String
  pub revoked_at : String
  pub created_at : String

pub record Session : Type 0 where
  pub id : String
  pub user_id : String
  pub token_hash : String
  pub created_at : String
  pub expires_at : String
  pub ip : String
  pub ua : String

-- `S` is the state of the database; the callers ignore the errors of the writes that return it alone.
pub record Storage (S : Type 0) : Type 0 where
  pub get_api_key_by_prefix : String → S → Option ApiKey
  pub update_api_key : ApiKey → S → S
  pub get_user : String → S → Option User
  pub get_session_by_token_hash : String → S → Option Session
  pub create_session : Session → S → Option S
  pub delete_session : String → S → S
  pub update_session_expiry : String → String → S → S

-- the clock, the settings and the libraries that a request meets
pub record Env : Type 0 where
  pub now : ℕ
  -- time.Parse and Format with time.RFC3339Nano
  pub parse_time : String → Option ℕ
  pub format_time : ℕ → String
  pub auth_enabled : Bool
  pub developer_mode : Bool
  -- VerifySecret
  pub verify : String → String → Bool
  -- json.Unmarshal into a list of texts
  pub unmarshal : String → Option (List String)
  -- HashToken, the hex of a SHA-256 sum
  pub hash_token : String → String
