-- ===== src/Validate/Nodes.antt =====
-- ValidateChain: the checks of one node.
use serpent_seek.Prelude.{
  ℕ, ◌+◌, is_positive, is_negative, to_ℕ, String, Bool, false, not, ◌&&◌, ◌||◌, Option, none, some,
  List, [], ◌∷◌, ◌++◌, Dict, lookup, insert, ltb, ◌==◌, trim_space, to_lower, if◌then◌else◌,
}
use serpent_seek.Models.{ChainNode}
use serpent_seek.Plan.{is_provider, is_kind_start, folds_to_answer}
use serpent_seek.Graph.{has_key}
use serpent_seek.Validate.Report.{
  Fault, empty_key, duplicate_key, no_provider, logical_answer, start_answer, negative_timeout,
  negative_retries, negative_delay, timeout_range, too_many_retries, bad_kind, bad_node_mode,
  bad_policy, Notice, unknown_provider, ignored_provider, fault_if, notice_if,
}

unfoldable pub is_empty_key : ChainNode → Bool
is_empty_key n = trim_space n.key == ""

-- the map `nodes`, after the nodes of the list
unfoldable pub node_index : List ChainNode → Dict ChainNode → Dict ChainNode
node_index [] m = m
node_index (n ∷ ns) m = node_index ns (if is_empty_key n then m else insert n.key n m)

unfoldable pub is_known_kind : String → Bool
is_known_kind raw =
    let word = to_lower (trim_space raw) in
    word == "" || word == "provider" || word == "start" || word == "join"

unfoldable pub is_known_mode : String → Bool
is_known_mode m = m == "" || m == "search" || m == "answer"

unfoldable pub is_known_policy : String → Bool
is_known_policy p = p == "" || p == "stop" || p == "next" || p == "edge"

unfoldable pub timeout_faults : ChainNode → List Fault
timeout_faults n =
    if is_negative n.timeout_ms
    then negative_timeout n.key ∷ []
    else fault_if
        (is_positive n.timeout_ms
          && (ltb (to_ℕ n.timeout_ms) 1000 || ltb 120_000 (to_ℕ n.timeout_ms)))
        (timeout_range n.key n.timeout_ms)

unfoldable pub retry_faults : ChainNode → List Fault
retry_faults n =
    (if is_negative n.retries
      then negative_retries n.key ∷ []
      else fault_if (ltb 10 (to_ℕ n.retries)) (too_many_retries n.key n.retries))
    ++ fault_if (is_negative n.retry_delay_ms) (negative_delay n.key)

unfoldable pub policy_faults : ChainNode → List Fault
unfolding is_known_policy
policy_faults n =
    fault_if (not (is_known_policy n.on_success)) (bad_policy n.key "on_success" n.on_success)
    ++ fault_if (not (is_known_policy n.on_empty)) (bad_policy n.key "on_empty" n.on_empty)
    ++ fault_if (not (is_known_policy n.on_fail)) (bad_policy n.key "on_fail" n.on_fail)

unfoldable pub node_mode_faults : ChainNode → List Fault
unfolding is_known_mode folds_to_answer
node_mode_faults n =
    fault_if (not (is_known_mode n.mode)) (bad_node_mode n.key n.mode)
    ++ fault_if (not (is_provider n) && folds_to_answer (trim_space n.mode)) (logical_answer n.key)
    ++ fault_if ((is_kind_start n || n.is_start) && n.mode == "answer") (start_answer n.key)

unfoldable pub key_faults : ChainNode → Dict ChainNode → List Fault
key_faults n seen = elim (lookup n.key seen) [ none ↦ [] | some _ ↦ duplicate_key n.key ∷ [] ]

unfoldable pub kind_faults : ChainNode → List Fault
unfolding is_known_kind
kind_faults n =
    fault_if (not (is_known_kind n.kind)) (bad_kind n.key n.kind)
    ++ fault_if (is_provider n && trim_space n.provider_id == "") (no_provider n.key)

-- one round of the loop, for a node with a key
unfoldable pub keyed_faults : ChainNode → Dict ChainNode → List Fault
keyed_faults n seen =
    key_faults n seen
    ++ kind_faults n
    ++ node_mode_faults n
    ++ timeout_faults n
    ++ retry_faults n
    ++ policy_faults n

unfoldable pub node_faults : ℕ → List ChainNode → Dict ChainNode → List Fault
unfolding keyed_faults
node_faults i [] seen = []
node_faults i (n ∷ ns) seen =
    if is_empty_key n
    then empty_key i ∷ node_faults (i + 1) ns seen
    else keyed_faults n seen ++ node_faults (i + 1) ns (insert n.key n seen)

-- a nil map of known providers asks for no check
unfoldable pub is_unknown : Option (List String) → String → Bool
is_unknown none id = false
is_unknown (some known) id = not (has_key (to_lower (trim_space id)) known)

unfoldable pub keyed_notices : Option (List String) → ChainNode → List Notice
unfolding is_unknown
keyed_notices known n =
    notice_if
      (is_provider n && not (trim_space n.provider_id == "") && is_unknown known n.provider_id)
      (unknown_provider n.key n.provider_id)
    ++ notice_if (not (is_provider n) && not (trim_space n.provider_id == ""))
        (ignored_provider n.key)

unfoldable pub node_notices : Option (List String) → List ChainNode → List Notice
unfolding keyed_notices
node_notices known [] = []
node_notices known (n ∷ ns) =
    (if is_empty_key n then [] else keyed_notices known n) ++ node_notices known ns

-- providerCount
unfoldable pub provider_count : List ChainNode → ℕ
provider_count [] = 0
provider_count (n ∷ ns) =
    let rest = provider_count ns in if not (is_empty_key n) && is_provider n then rest + 1 else rest
