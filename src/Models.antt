-- ===== src/Models.antt =====
-- internal/store/models.go and internal/providers/provider.go: the records that the engine reads.
-- Left out: the layout coordinates and the counts that the HTTP layer computes for display.
use serpent_seek.Prelude.{ℤ, String, Bool, List, Dict}

pub record ChainNode : Type 0 where
  pub id : String
  pub chain_id : String
  pub key : String
  pub kind : String
  pub provider_id : String
  pub label : String
  pub mode : String
  pub params : Dict String
  pub timeout_ms : ℤ
  pub retries : ℤ
  pub retry_delay_ms : ℤ
  pub delay_policy : String
  pub on_success : String
  pub on_empty : String
  pub on_fail : String
  pub is_start : Bool

pub record ChainEdge : Type 0 where
  pub id : String
  pub chain_id : String
  pub from_key : String
  pub to_key : String
  pub condition : String

pub record Chain : Type 0 where
  pub id : String
  pub name : String
  pub active : Bool
  pub mode : String
  pub version : ℤ
  pub nodes : List ChainNode
  pub edges : List ChainEdge
  pub created_at : String
  pub updated_at : String

-- A result row; `sources` is filled by the merger only.
pub record Row : Type 0 where
  pub link : String
  pub title : String
  pub snippet : String
  pub sources : List String

-- The classified outcome of one upstream call.
pub record Result : Type 0 where
  pub ok : Bool
  pub rows : List Row
  pub kind : String
  pub error : String
  pub permanent : Bool
  pub http_status : ℤ
  pub engine : String
  pub provider : String
  pub retry_after_ms : ℤ
  pub quota_remaining : ℤ
  pub quota_max : ℤ
  pub has_quota : Bool
  pub answer : String

-- A configured search backend instance.
pub record Provider : Type 0 where
  pub id : String
  pub code : String
  pub name : String
  pub enabled : Bool
  pub base_url : String
  pub proxy_id : String
  pub credentials : Dict String
  pub params : Dict String

-- The three words for a block's kind.
pub data BlockKind : Type 0 where
  provider start join : BlockKind

-- The two execution modes of a chain.
pub data ChainMode : Type 0 where
  first_success full_chain : ChainMode

-- The outcome of a block, which steers the walk.
pub data Outcome : Type 0 where
  success empty fail : Outcome
