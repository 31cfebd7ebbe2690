-- ===== src/Prelude/Maps.antt =====
-- Go's maps with text keys, as association lists: a key stands at most once after `insert`.
use Prim.Native.String.{String}
use mathlib.Core.Path.{◌≡◌, refl}
use mathlib.Core.Option.{Option, none, some}
use mathlib.Core.List.{List, [], ◌∷◌, map}
use native.Mathlib.Omega.{arith}
use text.Mathlib.Text.{◌==◌}
use text.Mathlib.TextEquality.{eq_iff}
use package.serpent_seek.Prelude.Tests.{if◌then◌else◌, eq_self}

abbrev pub Dict {ℓ} : Type ℓ → Type ℓ
Dict V = List (String × V)

module _ {ℓ} {V : Type ℓ} where
  -- delete(m, key)
  unfoldable pub delete : String → Dict V → Dict V
  delete key [] = []
  delete key ((own, v) ∷ rest) =
      let left = delete key rest in if own == key then left else (own, v) ∷ left

  -- m[key] = new
  unfoldable pub insert : String → V → Dict V → Dict V
  insert key new [] = (key, new) ∷ []
  insert key new ((own, v) ∷ rest) =
      if own == key then (key, new) ∷ rest else (own, v) ∷ insert key new rest

  -- m[key], with `none` for a missing key
  unfoldable pub lookup : String → Dict V → Option V
  lookup key [] = none
  lookup key ((own, v) ∷ rest) = if own == key then some v else lookup key rest

  unfoldable pub keys : Dict V → List String
  keys = map (λ p. p.0)

  pub lookup-delete :
      (key at : String) (m : Dict V)
      → lookup at (delete key m) ≡ (if key == at then none else lookup at m)
  unfolding lookup delete
  lookup-delete key at [] = ground arith
  lookup-delete key at ((own, v) ∷ rest) =
      ground (arith, lookup-delete key at rest, eq_iff key at, eq_iff own key, eq_iff own at)

  pub lookup-insert :
      (key at : String) (new : V) (m : Dict V)
      → lookup at (insert key new m) ≡ (if key == at then some new else lookup at m)
  unfolding lookup insert
  lookup-insert key at new [] = refl
  lookup-insert key at new ((own, v) ∷ rest) =
      ground (arith, lookup-insert key at new rest, eq_iff own at, eq_iff own key, eq_iff key at)

  pub lookup-insert_self : (k : String) (v : V) (m : Dict V) → lookup k (insert k v m) ≡ some v
  lookup-insert_self k v m = simp (lookup-insert, eq_self)

  pub lookup-delete_self : (k : String) (m : Dict V) → lookup k (delete k m) ≡ none
  lookup-delete_self k m = simp (lookup-delete, eq_self)

  -- no key stands twice, as in a map
  abbrev pub IsUnique : Dict V → Type ℓ
  IsUnique [] = Unit
  IsUnique ((k, v) ∷ m) = (lookup k m ≡ none) × IsUnique m

  pub insert-IsUnique : (k : String) (v : V) (m : Dict V) → IsUnique m → IsUnique (insert k v m)
  unfolding insert lookup
  insert-IsUnique k v [] h = (refl, tt)
  insert-IsUnique k v ((j, w) ∷ m) h =
      ground (arith, insert-IsUnique k v m, lookup-insert k j v m, eq_iff j k, eq_iff k j)

  pub delete-IsUnique : (k : String) (m : Dict V) → IsUnique m → IsUnique (delete k m)
  unfolding delete lookup
  delete-IsUnique k [] h = tt
  delete-IsUnique k ((j, w) ∷ m) h =
      ground (arith, delete-IsUnique k m, lookup-delete k j m, eq_iff k j)

pub ruleset dict_laws = (lookup-insert, lookup-delete)
