-- ===== src/Merge.antt =====
-- internal/engine/dedupe.go: the merger of full-chain rows, over any reduction of a link to its key
-- (`Link` has the program's own).
pub mod Link
pub mod Rows
pub mod Valid
pub mod Sources
mod Tests
use serpent_seek.Prelude.{
  ℕ, zero, suc, ◌+◌, ◌-◌, String, Bool, true, false, ◌&&◌, ◌||◌, none, some, List, [], ◌∷◌, ◌++◌,
  Dict, lookup, insert, length, get_elem?, set, take, any, ltb, ◌==◌, if◌then◌else◌,
}
use serpent_seek.Models.{Row}

pub record Merger : Type 0 where
  pub rows : List Row
  pub by_key : Dict ℕ
  pub collected : ℕ

abbrev pub new_merger : Merger
new_merger = record { rows = []; by_key = []; collected = 0 }

abbrev pub has_text : String → List String → Bool
has_text s = any (λ t. t == s)

-- A link that is known: its row gains the source, unless it has it. (The index is in range:
-- `IsValid`.)
unfoldable pub add_source : String → ℕ → Merger → Bool × Merger
add_source provider idx m = elim (get_elem? m.rows idx) [
  | none ↦ (false, m)
  | some r ↦ if has_text provider r.sources then (false, m) else (
    true,
    record m { rows = set m.rows idx (record r { sources = r.sources ++ provider ∷ [] }) },
  )
]

-- A link that is new: its row is appended, with the one source.
unfoldable pub append_row : String → String → Row → Merger → Merger
append_row provider key row m = record m {
  rows = m.rows ++ record row { sources = provider ∷ [] } ∷ [];
  by_key = insert key (length m.rows) m.by_key;
}

module _ (link_key : String → String) where
  -- one round of the loop in `add`
  unfoldable pub add_row : String → Row → Merger → Bool × Merger
  add_row provider row m =
      let seen = record m { collected = m.collected + 1 } in
      elim (lookup (link_key row.link) m.by_key) [
        | some idx ↦ add_source provider idx seen
        | none ↦ (true, append_row provider (link_key row.link) row seen)
      ]

  -- whether the set grew or gained a source, and the new state
  unfoldable pub add : String → List Row → Merger → Bool × Merger
  add provider [] m = (false, m)
  add provider (row ∷ rows) m =
      let (changed, m') = add_row provider row m in
      let (later, m'') = add provider rows m' in (changed || later, m'')

abbrev pub collected_total : Merger → ℕ
collected_total m = m.collected

abbrev pub unique_count : Merger → ℕ
unique_count m = length m.rows

unfoldable pub duplicates_removed : Merger → ℕ
duplicates_removed m = m.collected - length m.rows

-- the inner loop of `providers`
unfoldable pub new_sources : List String → List String → List String
new_sources [] out = out
new_sources (s ∷ ss) out = new_sources ss (if has_text s out then out else out ++ s ∷ [])

unfoldable pub sources_of : List Row → List String → List String
unfolding new_sources
sources_of [] out = out
sources_of (r ∷ rs) out = sources_of rs (new_sources r.sources out)

-- merger.providers
unfoldable pub providers : Merger → List String
unfolding sources_of
providers m = sources_of m.rows []

-- the cap of `rowsUpTo` and `providerRows`: 0 is no cap
unfoldable pub cap_rows : ℕ → List Row → List Row
cap_rows count rows = if ltb 0 count && ltb count (length rows) then take count rows else rows

unfoldable pub rows_up_to : ℕ → Merger → List Row
unfolding cap_rows
rows_up_to count m = cap_rows count m.rows
