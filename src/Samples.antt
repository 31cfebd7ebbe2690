-- ===== src/Samples.antt =====
-- Concrete chains and requests for the tests: a start block, two provider blocks and a join block.
use serpent_seek.Prelude.{ℕ, pos, String, true, false, [], ◌∷◌, ◌==◌, if◌then◌else◌}
use serpent_seek.Models.{ChainNode, ChainEdge, Chain, Row}
use serpent_seek.Plan.{Plan}
use serpent_seek.Cooldown.{new_cooldowns}
use serpent_seek.Engine.State.{Context, World, Reply, new_world}
use serpent_seek.Engine.Attempt.{no_result}

abbrev pub block : String → String → String → ChainNode
block key kind provider_id = record {
  id = key;
  chain_id = "c";
  key = key;
  kind = kind;
  provider_id = provider_id;
  label = "";
  mode = "";
  params = [];
  timeout_ms = pos 0;
  retries = pos 1;
  retry_delay_ms = pos 0;
  delay_policy = "";
  on_success = "";
  on_empty = "";
  on_fail = "";
  is_start = false;
}

abbrev pub edge : String → String → ChainEdge
edge from to = record { id = ""; chain_id = "c"; from_key = from; to_key = to; condition = "next" }

abbrev pub start_block : ChainNode
start_block = block "s" "start" ""

abbrev pub first_block : ChainNode
first_block = block "a" "provider" "p1"

abbrev pub second_block : ChainNode
second_block = block "b" "" "p2"

abbrev pub chain_of : String → Chain
chain_of mode = record {
  id = "c";
  name = "sample";
  active = true;
  mode = mode;
  version = pos 1;
  nodes = start_block ∷ first_block ∷ second_block ∷ [];
  edges = edge "s" "a" ∷ edge "a" "b" ∷ [];
  created_at = "";
  updated_at = "";
}

abbrev pub plan_of : String → Plan
plan_of mode = record {
  chain = chain_of mode;
  nodes = ("s", start_block) ∷ ("a", first_block) ∷ ("b", second_block) ∷ [];
  out = ("s", edge "s" "a" ∷ []) ∷ ("a", edge "a" "b" ∷ []) ∷ [];
  order = "s" ∷ "a" ∷ "b" ∷ [];
  start = start_block;
}

abbrev pub row : String → Row
row link = record { link = link; title = link; snippet = ""; sources = [] }

-- the first provider fails, the second finds one row
abbrev pub reply : ℕ → String → ℕ → Reply
reply call id attempt = record {
  acquired = true;
  acquire_error = "";
  result =
      if id == "p1"
      then record no_result { kind = "http"; error = "bad gateway" }
      else record no_result { ok = true; rows = row "https://example.org/" ∷ [] };
  stages = [];
  took_ms = 5;
  slept = true;
}

abbrev pub context : String → Context
context mode = record {
  env = record { now = λ call. call; reply = reply };
  settings = record {
    treat_empty_as_fail = true;
    allow_sparse_sources = false;
    provider_failures = pos 3;
    provider_cooldown = pos 60;
  };
  registry = "p1" ∷ "p2" ∷ [];
  providers = [];
  plan = plan_of mode;
  count = 5;
  max_attempts = 10;
  redact = λ s. s;
  link_key = λ s. s;
}

abbrev pub fresh : World
fresh = new_world new_cooldowns
