-- ===== src/Validate/Report.antt =====
-- The messages of ValidateChain and its result.
use serpent_seek.Prelude.{ℕ, ℤ, String, Bool, List, [], ◌∷◌, if◌then◌else◌}

-- a message of `errf`
pub data Fault : Type 0 where
  no_nodes no_provider_block no_start : Fault
  bad_mode : String → Fault
  empty_key : ℕ → Fault
  duplicate_key no_provider logical_answer start_answer : String → Fault
  negative_timeout negative_retries negative_delay : String → Fault
  timeout_range too_many_retries : String → ℤ → Fault
  bad_kind bad_node_mode : String → String → Fault
  bad_policy : String → String → String → Fault
  unknown_source unknown_target : String → Fault
  bad_condition : String → String → String → Fault
  join_without_branch start_without_next join_without_next unreachable : String → Fault
  many_starts has_cycle : List String → Fault

-- a message of `warnf`; `over_budget` has the steps and what negative retries take from them
pub data Notice : Type 0 where
  unknown_provider : String → String → Notice
  ignored_provider not_by_next fans_out join_inert : String → Notice
  over_budget : ℕ → ℕ → ℤ → Notice

-- ValidationResult
pub record Validation : Type 0 where
  pub ok : Bool
  pub errors : List Fault
  pub warnings : List Notice

unfoldable pub fault_if : Bool → Fault → List Fault
fault_if b f = if b then f ∷ [] else []

unfoldable pub notice_if : Bool → Notice → List Notice
notice_if b w = if b then w ∷ [] else []
