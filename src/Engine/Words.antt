-- ===== src/Engine/Words.antt =====
-- The small functions of engine.go on nodes, parameters and results.
use serpent_seek.Prelude.{
  ℕ, ◌+◌, ◌*◌, ℤ, pos, negsuc, to_ℕ, String, Bool, true, false, not, ◌&&◌, ◌||◌, none, some, List,
  [], ◌∷◌, Dict, lookup, trim_space, to_lower, ◌==◌, ltb, if◌then◌else◌,
}
use serpent_seek.Models.{ChainNode, BlockKind, Result, Row, Outcome}
use serpent_seek.Plan.{Plan, kind}
use serpent_seek.Merge.{cap_rows}
use serpent_seek.Engine.State.{Settings}

unfoldable pub is_yes : String → Bool
is_yes v = let w = to_lower (trim_space v) in w == "1" || w == "true" || w == "yes" || w == "on"

unfoldable pub is_no : String → Bool
is_no v = let w = to_lower (trim_space v) in w == "0" || w == "false" || w == "no" || w == "off"

unfoldable pub param_bool : Dict String → String → Bool
unfolding is_yes
param_bool params key = elim (lookup key params) [ none ↦ false | some v ↦ is_yes v ]

-- a node parameter wins over the global setting; any other word leaves the setting
unfoldable pub override : Dict String → String → Bool → Bool
override params key setting = elim (lookup key params) [
  | none ↦ setting
  | some v ↦ if is_yes v then true else if is_no v then false else setting
]

unfoldable pub treat_empty_as_fail : Settings → ChainNode → Bool
treat_empty_as_fail s n = override n.params "treat_empty_as_fail" s.treat_empty_as_fail

unfoldable pub allow_sparse_sources : Settings → ChainNode → Bool
allow_sparse_sources s n = override n.params "allow_sparse_sources" s.allow_sparse_sources

-- some Join block of the order asks to ignore the request count
unfoldable pub ignores_count : List String → Dict ChainNode → Bool
ignores_count [] m = false
ignores_count (k ∷ ks) m =
    let rest = ignores_count ks m in
    elim (lookup k m) [
      | none ↦ rest
      | some n ↦ elim (kind n) [
        | BlockKind.join ↦ param_bool n.params "ignore_count" || rest
        | _ ↦ rest
      ]
    ]

unfoldable pub plan_ignores_count : Plan → Bool
plan_ignores_count p = ignores_count p.order p.nodes

unfoldable pub is_blank : String → Bool
is_blank s = trim_space s == ""

unfoldable pub has_rows : List Row → Bool
has_rows [] = false
has_rows (_ ∷ _) = true

unfoldable pub outcome_of : Result → Bool → Outcome
outcome_of r treat_empty =
    if r.ok
    then (if not (has_rows r.rows) && treat_empty then Outcome.empty else Outcome.success)
    else Outcome.fail

unfoldable pub outcome_of_answer : Result → Bool → Outcome
outcome_of_answer r sparse =
    if not r.ok
    then Outcome.fail
    else if not (is_blank r.answer)
    then Outcome.success
    else if sparse && has_rows r.rows
    then Outcome.success
    else Outcome.empty

unfoldable pub provider_rows : List Row → ℕ → List Row
provider_rows rows count = cap_rows count rows

abbrev pub max_delay : ℕ
max_delay = 30_000

-- in milliseconds
unfoldable pub cap_delay : ℤ → ℕ
cap_delay d = if ltb max_delay (to_ℕ d) then max_delay else to_ℕ d

-- the delay before the next attempt of one block, in milliseconds; a negative base gives none
unfoldable pub backoff_delay : ChainNode → ℕ → ℕ
backoff_delay n attempt =
    let policy = to_lower n.delay_policy in
    if policy == "none"
    then 0
    else if policy == "fixed"
    then cap_delay n.retry_delay_ms
    else cap_delay (pos (to_ℕ n.retry_delay_ms * (attempt + 1)))

-- the number of rounds of `for attempt := 0; attempt < node.Retries + 1; attempt++`
unfoldable pub attempts_of : ChainNode → ℕ
attempts_of n = elim n.retries [ pos r ↦ r + 1 | negsuc _ ↦ 0 ]

unfoldable pub count_of : ℤ → ℕ
count_of z = if ltb 20 (to_ℕ z) then 20 else to_ℕ z
