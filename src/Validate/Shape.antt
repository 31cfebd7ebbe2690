-- ===== src/Validate/Shape.antt =====
-- ValidateChain: the checks of the graph as a whole: joins, starts, reachability and the notices that follow.
use Prim.Native.Char.{code}
use Prim.Native.String as S
use serpent_seek.Prelude.{
  ℕ, ◌+◌, ℤ, pos, negsuc, is_positive, to_ℕ, String, Bool, true, false, not, ◌&&◌, ◌||◌, Option,
  none, some, List, [], ◌∷◌, ◌++◌, Dict, lookup, ltb, eqb, ◌==◌, if◌then◌else◌,
}
use serpent_seek.Models.{ChainNode, ChainEdge, BlockKind}
use serpent_seek.Plan.{kind, is_provider, is_kind_start}
use serpent_seek.Graph.{has_key}
use serpent_seek.Validate.Report.{
  Fault, join_without_branch, no_start, many_starts, start_without_next, join_without_next,
  unreachable, Notice, over_budget, not_by_next, fans_out, join_inert, fault_if, notice_if,
}
use serpent_seek.Validate.Edges.{incoming_count, neutral_successor_count, neutral_incoming_count}

unfoldable pub is_join : ChainNode → Bool
is_join n = elim (kind n) [ BlockKind.join ↦ true | _ ↦ false ]

unfoldable pub join_faults : List ChainEdge → List ChainNode → List Fault
join_faults es [] = []
join_faults es (n ∷ ns) =
    fault_if (is_join n && eqb (incoming_count es n.key) 0) (join_without_branch n.key)
    ++ join_faults es ns

-- Go's order of texts
unfoldable pub text_ltb : String → String → Bool
text_ltb s S.[] = false
text_ltb S.[] (S.◌∷◌ b t) = true
text_ltb (S.◌∷◌ a s) (S.◌∷◌ b t) =
    let rest = text_ltb s t in if eqb (code a) (code b) then rest else ltb (code a) (code b)

-- adds a key to a sorted list that has each key once
unfoldable pub insert_sorted : String → List String → List String
unfolding text_ltb
insert_sorted k [] = k ∷ []
insert_sorted k (j ∷ ks) =
    let rest = insert_sorted k ks in
    if j == k then j ∷ ks else if text_ltb k j then k ∷ j ∷ ks else j ∷ rest

unfoldable pub is_entry : ChainNode → Bool
is_entry n = n.is_start || is_kind_start n

-- sortedKeys(entry)
unfoldable pub starts_of : List ChainNode → List String → List String
starts_of [] found = found
starts_of (n ∷ ns) found = starts_of ns (if is_entry n then insert_sorted n.key found else found)

unfoldable pub start_faults : List String → List Fault
start_faults [] = no_start ∷ []
start_faults (_ ∷ []) = []
start_faults (k ∷ j ∷ ks) = many_starts (k ∷ j ∷ ks) ∷ []

unfoldable pub neutral_fault : Bool → List ChainEdge → ChainNode → List Fault
neutral_fault full es n = elim (kind n) [
  | BlockKind.start ↦ fault_if (eqb (neutral_successor_count es n.key) 0) (start_without_next n.key)
  | BlockKind.join ↦
      fault_if (full && eqb (neutral_incoming_count es n.key) 0) (join_without_next n.key)
  | BlockKind.provider ↦ []
]

unfoldable pub each_neutral_fault : Bool → List ChainEdge → List ChainNode → List Fault
each_neutral_fault full es [] = []
each_neutral_fault full es (n ∷ ns) = neutral_fault full es n ++ each_neutral_fault full es ns

-- only where the start is single
unfoldable pub neutral_faults : Bool → List ChainEdge → List String → List ChainNode → List Fault
neutral_faults full es (_ ∷ []) ns = each_neutral_fault full es ns
neutral_faults full es _ ns = []

unfoldable pub unreachable_faults : List String → List String → List Fault
unreachable_faults seen [] = []
unreachable_faults seen (k ∷ ks) =
    fault_if (not (has_key k seen)) (unreachable k) ++ unreachable_faults seen ks

-- `Retries + 1` summed over the provider blocks: what is added, and what is taken away
unfoldable pub potential : Dict ChainNode → List String → ℕ × ℕ
potential m [] = (0, 0)
potential m (k ∷ ks) =
    let (added, taken) = potential m ks in
    elim (lookup k m) [
      | none ↦ (added, taken)
      | some n ↦
          if is_provider n
          then elim n.retries [ pos r ↦ (added + r + 1, taken) | negsuc r ↦ (added, taken + r) ]
          else (added, taken)
    ]

unfoldable pub budget_notices : Option ℤ → Dict ChainNode → List String → List Notice
unfolding potential
budget_notices none m seen = []
budget_notices (some max) m seen =
    let (added, taken) = potential m seen in
    notice_if (is_positive max && ltb (to_ℕ max + taken) added) (over_budget added taken max)

unfoldable pub next_notices : List String → List String → List String → List Notice
next_notices seen next_seen [] = []
next_notices seen next_seen (k ∷ ks) =
    notice_if (has_key k seen && not (has_key k next_seen)) (not_by_next k)
    ++ next_notices seen next_seen ks

unfoldable pub linear_notices : List ChainEdge → String → List ChainNode → List Notice
linear_notices es start [] = []
linear_notices es start (n ∷ ns) =
    notice_if (n.key == start && ltb 1 (neutral_successor_count es n.key)) (fans_out n.key)
    ++ notice_if (is_join n) (join_inert n.key)
    ++ linear_notices es start ns
