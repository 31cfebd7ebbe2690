-- ===== src/Plan.antt =====
-- internal/engine/plan.go: the indexed view of a chain graph.
pub mod Index
pub mod Steps
pub mod Entry
mod Tests
use serpent_seek.Prelude.{
  String, Bool, true, false, ◌||◌, Option, none, some, List, [], ◌∷◌, ◌++◌, Dict, lookup, insert,
  or_else, find, keep, trim_space, to_lower, ◌==◌, if◌then◌else◌,
}
use serpent_seek.Models.{ChainNode, ChainEdge, Chain, BlockKind, ChainMode, Outcome}

pub record Plan : Type 0 where
  pub chain : Chain
  pub nodes : Dict ChainNode
  pub out : Dict (List ChainEdge)
  pub order : List String
  pub start : ChainNode

pub data PlanError : Type 0 where
  empty_chain no_start_node : PlanError

pub data Build : Type 0 where
  ok : Plan → Build
  err : PlanError → Build

-- Kind of a node that is there: any other word counts as a provider
unfoldable pub kind : ChainNode → BlockKind
kind n =
    let word = to_lower (trim_space n.kind) in
    if word == "start"
    then BlockKind.start
    else if word == "join"
    then BlockKind.join
    else BlockKind.provider

unfoldable pub is_kind_start : ChainNode → Bool
unfolding kind
is_kind_start n = elim (kind n) [ BlockKind.start ↦ true | _ ↦ false ]

unfoldable pub is_provider : ChainNode → Bool
unfolding kind
is_provider n = elim (kind n) [ BlockKind.provider ↦ true | _ ↦ false ]

-- strings.EqualFold with "answer"; the long s folds to s
unfoldable pub folds_to_answer : String → Bool
folds_to_answer m = let word = to_lower m in word == "answer" || word == "anſwer"

-- p.nodes[n.Key] = n, for each node in turn
unfoldable pub index_nodes : List ChainNode → Dict ChainNode → Dict ChainNode
index_nodes [] m = m
index_nodes (n ∷ ns) m = index_nodes ns (insert n.key n m)

-- p.out[e.FromKey] = append(p.out[e.FromKey], e)
unfoldable pub index_edges : List ChainEdge → Dict (List ChainEdge) → Dict (List ChainEdge)
index_edges [] m = m
index_edges (e ∷ es) m =
    index_edges es (insert e.from_key (or_else (lookup e.from_key m) [] ++ e ∷ []) m)

unfoldable pub order_of : List ChainNode → List String
order_of [] = []
order_of (n ∷ ns) = n.key ∷ order_of ns

-- the first key in order whose node passes the test
unfoldable pub first_node : (ChainNode → Bool) → List String → Dict ChainNode → Option ChainNode
first_node test [] m = none
first_node test (k ∷ ks) m =
    let rest = first_node test ks m in
    elim (lookup k m) [ none ↦ rest | some n ↦ if test n then some n else rest ]

-- A logical start block wins; otherwise the first node with the legacy flag.
unfoldable pub entry : List String → Dict ChainNode → Option ChainNode
entry order nodes = elim (first_node is_kind_start order nodes) [
  | some n ↦ some n
  | none ↦ first_node (λ n. n.is_start) order nodes
]

unfoldable pub build_plan : Chain → Build
build_plan c =
    let nodes = index_nodes c.nodes [] in
    elim c.nodes [
      | [] ↦ err empty_chain
      | _ ∷ _ ↦ elim (entry (order_of c.nodes) nodes) [
        | none ↦ err no_start_node
        | some n ↦ ok (record {
          chain = c;
          nodes = nodes;
          out = index_edges c.edges [];
          order = order_of c.nodes;
          start = n;
        })
      ]
    ]

unfoldable pub has_start_block : Plan → Bool
has_start_block p = elim (first_node is_kind_start p.order p.nodes) [ none ↦ false | some _ ↦ true ]

-- Mode: every other word is the fallback mode
unfoldable pub mode : Plan → ChainMode
mode p = if p.chain.mode == "full_chain" then ChainMode.full_chain else ChainMode.first_success

abbrev pub mode_text : ChainMode → String
mode_text ChainMode.full_chain = "full_chain"
mode_text ChainMode.first_success = "first_success"

-- Snapshot: the copy has the normalized mode
unfoldable pub snapshot : Plan → Chain
snapshot p = record (p.chain) { mode = mode_text (mode p) }

abbrev pub outcome_text : Outcome → String
outcome_text Outcome.success = "success"
outcome_text Outcome.empty = "empty"
outcome_text Outcome.fail = "fail"

unfoldable pub default_policy : String → String → String
default_policy v fallback = let w = to_lower (trim_space v) in if w == "" then fallback else w

unfoldable pub policy_for : ChainNode → Outcome → String
unfolding default_policy
policy_for n Outcome.success = default_policy n.on_success "stop"
policy_for n Outcome.empty = default_policy n.on_empty "next"
policy_for n Outcome.fail = default_policy n.on_fail "next"

-- "next", "any" and the empty condition
unfoldable pub is_neutral : String → Bool
is_neutral c = c == "next" || c == "any" || c == ""

unfoldable pub edge_matches : String → Outcome → Bool
edge_matches c o = is_neutral c || c == outcome_text o

unfoldable pub out_edges : Plan → String → List ChainEdge
out_edges p k = or_else (lookup k p.out) []

-- p.nodes[e.ToKey], for the edge that was found, if any
unfoldable pub follow : Plan → Option ChainEdge → Option ChainNode
follow p none = none
follow p (some e) = lookup e.to_key p.nodes

-- the policy "next": a matching condition, then a neutral edge, then the first edge
unfoldable pub choose_next : Outcome → ChainEdge → List ChainEdge → ChainEdge
choose_next o first rest =
    or_else (find (λ e. e.condition == outcome_text o) (first ∷ rest))
      (or_else (find (λ e. is_neutral e.condition) (first ∷ rest)) first)

unfoldable pub next : Plan → ChainNode → Outcome → Option ChainNode
next p n o =
    let policy = policy_for n o in
    let edges = out_edges p n.key in
    if policy == "stop" then none else elim edges [
      | [] ↦ none
      | first ∷ rest ↦
          if policy == "edge"
          then follow p (find (λ e. edge_matches e.condition o) (first ∷ rest))
          else follow p (some (choose_next o first rest))
    ]

unfoldable pub next_in_full_chain : Plan → ChainNode → Option ChainNode
next_in_full_chain p n = follow p (find (λ e. is_neutral e.condition) (out_edges p n.key))

unfoldable pub neutral_targets : Dict ChainNode → List ChainEdge → List ChainNode
neutral_targets m [] = []
neutral_targets m (e ∷ es) =
    let rest = neutral_targets m es in
    if is_neutral e.condition
    then elim (lookup e.to_key m) [ none ↦ rest | some n ↦ n ∷ rest ]
    else rest

unfoldable pub neutral_successors : Plan → ChainNode → List ChainNode
neutral_successors p n = neutral_targets p.nodes (out_edges p n.key)

-- firstNeutral of engine.go
unfoldable pub first_neutral : Plan → ChainNode → Option ChainNode
first_neutral p n = elim (neutral_successors p n) [ [] ↦ none | m ∷ _ ↦ some m ]
