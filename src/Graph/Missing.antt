-- ===== src/Graph/Missing.antt =====
-- How many keys of a list are not yet marked: the measure of the walks that mark what they visit.
use serpent_seek.Prelude.{
  ℕ, suc, ◌≤◌, ◌<◌, String, ◌≡◌, false, List, [], ◌∷◌, length, In, arith, if◌then◌else◌, eq_iff,
}
use serpent_seek.Graph.{has_key}

pub missing : List String → List String → ℕ
missing seen [] = 0
missing seen (k ∷ ks) = let rest = missing seen ks in if has_key k seen then rest else suc rest

pub missing-cons-le : (k : String) (seen ks : List String) → missing (k ∷ seen) ks ≤ missing seen ks
unfolding missing
missing-cons-le k seen [] = omega arith
missing-cons-le k seen (j ∷ ks) = ground (arith, missing-cons-le k seen ks)

pub missing-cons-lt :
    (k : String) (seen ks : List String)
    → In k ks
    → has_key k seen ≡ false
    → missing (k ∷ seen) ks < missing seen ks
unfolding missing
missing-cons-lt k seen [] h new = absurd h
missing-cons-lt k seen (j ∷ ks) h new =
    ground (arith, missing-cons-le k seen ks, missing-cons-lt k seen ks, eq_iff k j)

pub missing-le : (seen ks : List String) → missing seen ks ≤ length ks
unfolding missing
missing-le seen [] = omega arith
missing-le seen (k ∷ ks) = ground (arith, missing-le seen ks)
