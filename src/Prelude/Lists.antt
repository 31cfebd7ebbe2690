-- ===== src/Prelude/Lists.antt =====
-- Lists under native lengths and Boolean tests; membership as a predicate that computes.
use Prim.Native.Nat.{ℕ, zero, suc, ◌+◌, ◌-◌, ◌≤◌, ◌<◌}
use mathlib.Core.Path.{◌≡◌, refl, ap}
use mathlib.Core.Logic.{◌↔◌, ◌⊎◌, inl, inr}
use mathlib.Core.Bool.{Bool, true, false, ◌||◌, ◌&&◌}
use mathlib.Core.Option.{Option, none, some}
use mathlib.Core.List.{List, [], ◌∷◌, ◌++◌}
use native.Mathlib.Omega.{arith}
use package.serpent_seek.Prelude.Tests.{if◌then◌else◌, ltb, eqb, Option-cases}

module _ {ℓ} {A : Type ℓ} where
  abbrev pub length : List A → ℕ
  length [] = 0
  length (x ∷ xs) = suc (length xs)

  abbrev pub take : ℕ → List A → List A
  take zero xs = []
  take (suc n) [] = []
  take (suc n) (x ∷ xs) = x ∷ take n xs

  abbrev pub drop : ℕ → List A → List A
  drop zero xs = xs
  drop (suc n) [] = []
  drop (suc n) (x ∷ xs) = drop n xs

  abbrev pub get_elem? : List A → ℕ → Option A
  get_elem? [] i = none
  get_elem? (x ∷ xs) zero = some x
  get_elem? (x ∷ xs) (suc i) = get_elem? xs i

  -- A write out of bounds changes nothing.
  abbrev pub set : List A → ℕ → A → List A
  set [] i v = []
  set (x ∷ xs) zero v = v ∷ xs
  set (x ∷ xs) (suc i) v = x ∷ set xs i v

  abbrev pub or_else : Option A → A → A
  or_else none d = d
  or_else (some a) d = a

  -- the elements that pass a Boolean test
  abbrev pub keep : (A → Bool) → List A → List A
  keep p [] = []
  keep p (x ∷ xs) = let rest = keep p xs in if p x then x ∷ rest else rest

  -- the first element that passes
  abbrev pub find : (A → Bool) → List A → Option A
  find p [] = none
  find p (x ∷ xs) = if p x then some x else find p xs

  abbrev pub any : (A → Bool) → List A → Bool
  any p [] = false
  any p (x ∷ xs) = p x || any p xs

  pub length-append : (xs ys : List A) → length (xs ++ ys) ≡ length xs + length ys
  length-append [] ys = omega arith
  length-append (x ∷ xs) ys = omega (arith, length-append xs ys)

  pub length-take : (n : ℕ) (xs : List A) → n ≤ length xs → length (take n xs) ≡ n
  length-take zero xs h = refl
  length-take (suc n) [] h = absurd (omega arith)
  length-take (suc n) (x ∷ xs) h = omega (arith, length-take n xs)

  pub length-take-le : (n : ℕ) (xs : List A) → length (take n xs) ≤ n
  length-take-le zero xs = omega arith
  length-take-le (suc n) [] = omega arith
  length-take-le (suc n) (x ∷ xs) = omega (arith, length-take-le n xs)

  pub length-drop : (n : ℕ) (xs : List A) → length (drop n xs) ≡ length xs - n
  length-drop zero xs = omega arith
  length-drop (suc n) [] = omega arith
  length-drop (suc n) (x ∷ xs) = omega (arith, length-drop n xs)

  pub length-set : (xs : List A) (i : ℕ) (v : A) → length (set xs i v) ≡ length xs
  length-set [] i v = refl
  length-set (x ∷ xs) zero v = refl
  length-set (x ∷ xs) (suc i) v = ap suc (length-set xs i v)

  pub get_elem?-concat :
      (xs : List A) (x : A) (i : ℕ)
      → get_elem? (xs ++ x ∷ []) i ≡ (if eqb i (length xs) then some x else get_elem? xs i)
  get_elem?-concat [] x zero = ground arith
  get_elem?-concat [] x (suc i) = ground arith
  get_elem?-concat (y ∷ xs) x zero = ground arith
  get_elem?-concat (y ∷ xs) x (suc i) = ground (arith, get_elem?-concat xs x i)

  pub get_elem?-set :
      (xs : List A) (j i : ℕ) (v : A)
      → get_elem? (set xs j v) i ≡ (if eqb i j && ltb j (length xs) then some v else get_elem? xs i)
  get_elem?-set [] j i v = ground arith
  get_elem?-set (y ∷ xs) zero zero v = ground arith
  get_elem?-set (y ∷ xs) zero (suc i) v = ground arith
  get_elem?-set (y ∷ xs) (suc j) zero v = ground arith
  get_elem?-set (y ∷ xs) (suc j) (suc i) v = ground (arith, get_elem?-set xs j i v)

  pub lt_of_get_elem? : (xs : List A) (i : ℕ) (x : A) → get_elem? xs i ≡ some x → i < length xs
  lt_of_get_elem? [] i x h = cc
  lt_of_get_elem? (y ∷ xs) zero x h = omega arith
  lt_of_get_elem? (y ∷ xs) (suc i) x h = omega (arith, lt_of_get_elem? xs i x h)

  pub get_elem?-length : (xs : List A) → get_elem? xs (length xs) ≡ none
  get_elem?-length [] = refl
  get_elem?-length (y ∷ xs) = get_elem?-length xs

  pub get_elem?-none : (xs : List A) (i : ℕ) → length xs ≤ i → get_elem? xs i ≡ none
  get_elem?-none [] i h = refl
  get_elem?-none (y ∷ xs) zero h = absurd (omega arith)
  get_elem?-none (y ∷ xs) (suc i) h = get_elem?-none xs i (omega arith)

  pub get_elem?-take :
      (n : ℕ) (xs : List A) (i : ℕ)
      → get_elem? (take n xs) i ≡ (if ltb i n then get_elem? xs i else none)
  get_elem?-take zero xs i = ground arith
  get_elem?-take (suc n) [] i = ground arith
  get_elem?-take (suc n) (x ∷ xs) zero = ground arith
  get_elem?-take (suc n) (x ∷ xs) (suc i) = ground (arith, get_elem?-take n xs i)

  pub get_elem?_of_lt : (xs : List A) (i : ℕ) → i < length xs → (x : A) × (get_elem? xs i ≡ some x)
  get_elem?_of_lt [] i h = absurd (omega arith)
  get_elem?_of_lt (y ∷ xs) zero h = (y, refl)
  get_elem?_of_lt (y ∷ xs) (suc i) h = get_elem?_of_lt xs i (omega arith)

  pub length-keep-le : (p : A → Bool) (xs : List A) → length (keep p xs) ≤ length xs
  length-keep-le p [] = omega arith
  length-keep-le p (x ∷ xs) = ground (arith, length-keep-le p xs)

  pub List-cases : (xs : List A) → (xs ≡ []) ⊎ ((x : A) × (rest : List A) × (xs ≡ x ∷ rest))
  List-cases [] = inl refl
  List-cases (x ∷ xs) = inr (x, xs, refl)

module _ {A : Type 0} where
  -- `x` stands in the list
  abbrev pub In : A → List A → Type 0
  In a [] = ⊥
  In a (x ∷ xs) = (a ≡ x) ⊎ In a xs

  pub In-append : (a : A) (xs ys : List A) → In a (xs ++ ys) ↔ (In a xs ⊎ In a ys)
  In-append a [] ys = ground arith
  In-append a (x ∷ xs) ys = ground (arith, In-append a xs ys)

  pub In-keep : (p : A → Bool) (a : A) (xs : List A) → In a (keep p xs) → In a xs × (p a ≡ true)
  In-keep p a [] h = absurd h
  In-keep p a (x ∷ xs) h = ground (arith, In-keep p a xs)

  pub In-keep_intro : (p : A → Bool) (a : A) (xs : List A) → In a xs → p a ≡ true → In a (keep p xs)
  In-keep_intro p a [] h t = absurd h
  In-keep_intro p a (x ∷ xs) h t = ground (arith, In-keep_intro p a xs)

  pub In_of_find :
      (p : A → Bool) (a : A) (xs : List A) → find p xs ≡ some a → In a xs × (p a ≡ true)
  In_of_find p a [] h = cc
  In_of_find p a (x ∷ xs) h = ground (arith, In_of_find p a xs)

  pub find-none : (p : A → Bool) (a : A) (xs : List A) → find p xs ≡ none → In a xs → p a ≡ false
  find-none p a [] h m = absurd m
  find-none p a (x ∷ xs) h m = ground (arith, find-none p a xs)

  pub In-or_else_find :
      (p : A → Bool) (d : A) (xs : List A) → In d xs → In (or_else (find p xs) d) xs
  In-or_else_find p d xs h = elim (Option-cases (find p xs)) [
    | inl e ↦ rw e h
    | inr (a, e) ↦ rw e ((In_of_find p a xs e).0)
  ]

abbrev pub All {ℓ} : {A : Type ℓ} → (A → Type 0) → List A → Type 0
All Good [] = Unit
All Good (a ∷ rest) = Good a × All Good rest

-- a pair, written in front of the pairs that follow
abbrev pub ◌&◌ : {A B : Type 0} → A → B → A × B
◌&◌ a b = (a, b)

infixr 2 ◌&◌
