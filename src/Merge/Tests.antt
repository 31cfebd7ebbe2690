-- ===== src/Merge/Tests.antt =====
-- Runs of the merger.
use serpent_seek.Prelude.{
  ℕ, String, ◌≡◌, refl, false, List, [], ◌∷◌, lookup, insert, get_elem?, some,
}
use mathlib.Core.Path.{subst}
use serpent_seek.Models.{Row}
use serpent_seek.Merge.{Merger, new_merger, add_source, append_row, add_row, add}
use serpent_seek.Merge.Valid.{IsValid, IsValid-new, add-IsValid}
use serpent_seek.Samples.{row}

abbrev same_link : String → String
same_link s = s

abbrev two_rows : List Row
two_rows = row "x" ∷ row "y" ∷ []

abbrev two_merged : Merger
two_merged = record {
  rows = record (row "x") { sources = "p" ∷ [] } ∷ record (row "y") { sources = "p" ∷ [] } ∷ [];
  by_key = ("x", 0) ∷ ("y", 1) ∷ [];
  collected = 2;
}

two_added : (add same_link "p" two_rows new_merger).1 ≡ two_merged
unfolding add add_row add_source append_row lookup insert
two_added = refl

add-IsValid_example : IsValid same_link (add same_link "p" two_rows new_merger).1
add-IsValid_example = add-IsValid same_link "p" two_rows new_merger (IsValid-new same_link)

two_merged-IsValid : IsValid same_link two_merged
two_merged-IsValid =
    subst (IsValid same_link) two_added
      (add-IsValid same_link "p" two_rows new_merger (IsValid-new same_link))

second_row :
    get_elem? (add same_link "p" two_rows new_merger).1.rows 1
    ≡ some (record (row "y") { sources = "p" ∷ [] })
unfolding add add_row add_source append_row lookup insert
second_row = refl

abbrev second : ℕ
second = 1

nothing_new : (add same_link "p" (row "y" ∷ []) two_merged).0 ≡ false
unfolding add add_row add_source append_row lookup insert
nothing_new = refl
