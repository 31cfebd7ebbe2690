-- ===== src/Prelude/Split.antt =====
-- strings.Split and strings.SplitN by a separator of one character, and tests of all characters.
use Prim.Native.Nat.{ℕ}
use Prim.Native.Char.{Char, code}
use Prim.Native.String.{String, [], ◌∷◌, ◌++◌}
use mathlib.Core.Path.{◌≡◌, refl, ap, ◌∙◌}
use mathlib.Core.Bool.{Bool, true, false, not, ◌&&◌}
use mathlib.Core.Option.{Option, none, some}
use mathlib.Core.List as L
use mathlib.Core.List.{List}
use native.Mathlib.Omega.{arith}
use package.serpent_seek.Prelude.Tests.{eqb, if◌then◌else◌}
use package.serpent_seek.Prelude.Lists.{All}
use package.serpent_seek.Prelude.Strings.{all_codes, cut_prefix, has_prefix, trim_prefix, join}
use text.Mathlib.TextLemmas.{nil-append, cons-append}

-- a character in front of the first of the texts
before_first : Char → List String → List String
before_first c L.[] = L.◌∷◌ (c ∷ []) L.[]
before_first c (L.◌∷◌ s ss) = L.◌∷◌ (c ∷ s) ss

-- strings.Split(s, sep)
unfoldable pub split : ℕ → String → List String
unfolding before_first
split sep [] = L.◌∷◌ "" L.[]
split sep (c ∷ s) =
    let rest = split sep s in if eqb (code c) sep then L.◌∷◌ "" rest else before_first c rest

-- strings.SplitN(s, sep, 2), if it has two parts
unfoldable pub cut_at : ℕ → String → Option (String × String)
cut_at sep [] = none
cut_at sep (c ∷ s) =
    let rest = cut_at sep s in
    if eqb (code c) sep
    then some ("", s)
    else elim rest [ none ↦ none | some (head, tail) ↦ some (c ∷ head, tail) ]

pub all_codes-append :
    (p : ℕ → Bool) (s t : String) → all_codes p (s ++ t) ≡ all_codes p s && all_codes p t
unfolding all_codes
all_codes-append p [] t = rw (nil-append t) refl
all_codes-append p (c ∷ s) t = rw (cons-append c s t) (ground (arith, all_codes-append p s t))

-- what all codes pass, they pass under a weaker test
pub all_codes_mono :
    (p q : ℕ → Bool) (s : String)
    → ((n : ℕ) → p n ≡ true → q n ≡ true)
    → all_codes p s ≡ true
    → all_codes q s ≡ true
unfolding all_codes
all_codes_mono p q [] weaker h = refl
all_codes_mono p q (c ∷ s) weaker h =
    let head : p (code c) ≡ true = ground (arith, h) in
    let tail : all_codes p s ≡ true = ground (arith, h) in
    ground (arith, weaker (code c) head, all_codes_mono p q s weaker tail)

pub cut_at-append :
    (sep : Char) (s t : String)
    → all_codes (λ n. not (eqb n (code sep))) s ≡ true
    → cut_at (code sep) (s ++ (sep ∷ t)) ≡ some (s, t)
unfolding cut_at all_codes
cut_at-append sep [] t h = rw (nil-append (sep ∷ t)) (ground arith)
cut_at-append sep (c ∷ s) t h =
    rw (cons-append c s (sep ∷ t)) (ground (arith, cut_at-append sep s t, h))

split_plain :
    (sep : ℕ) (s : String) → all_codes (λ n. not (eqb n sep)) s ≡ true → split sep s ≡ L.◌∷◌ s L.[]
unfolding split all_codes before_first
split_plain sep [] h = refl
split_plain sep (c ∷ s) h =
    let here : eqb (code c) sep ≡ false = ground (arith, h) in
    let tail : all_codes (λ n. not (eqb n sep)) s ≡ true = ground (arith, h) in
    rw (here, split_plain sep s tail) refl

split-append :
    (sep : Char) (s t : String)
    → all_codes (λ n. not (eqb n (code sep))) s ≡ true
    → split (code sep) (s ++ (sep ∷ t)) ≡ L.◌∷◌ s (split (code sep) t)
unfolding split all_codes before_first
split-append sep [] t h = rw (nil-append (sep ∷ t)) (ground arith)
split-append sep (c ∷ s) t h =
    let here : eqb (code c) (code sep) ≡ false = ground (arith, h) in
    let tail : all_codes (λ n. not (eqb n (code sep))) s ≡ true = ground (arith, h) in
    rw (cons-append c s (sep ∷ t)) (rw (here, split-append sep s t tail) refl)

-- the texts without the separator
abbrev pub Free : Char → List String → Type 0
Free sep = All (λ s. all_codes (λ n. not (eqb n (code sep))) s ≡ true)

pub split-join :
    (sep : Char) (x : String) (xs : List String)
    → Free sep (L.◌∷◌ x xs)
    → split (code sep) (join (L.◌∷◌ x xs) (sep ∷ "")) ≡ L.◌∷◌ x xs
unfolding join
split-join sep x L.[] (h, rest) = split_plain (code sep) x h
split-join sep x (L.◌∷◌ y xs) (h, rest) =
    let after = join (L.◌∷◌ y xs) (sep ∷ "") in
    ap (λ t. split (code sep) (x ++ t))
      (cons-append sep "" after ∙ ap (λ t. sep ∷ t) (nil-append after))
    ∙ split-append sep x after h
    ∙ ap (λ t. L.◌∷◌ x t) (split-join sep y xs rest)

-- strings.TrimPrefix removes the text that a text begins with
pub cut_prefix-append : (t s : String) → cut_prefix (t ++ s) t ≡ some s
unfolding cut_prefix
cut_prefix-append [] s = rw (nil-append s) refl
cut_prefix-append (c ∷ t) s = rw (cons-append c t s) (ground (arith, cut_prefix-append t s))

-- when neither of two texts begins with the other, no extension of the one begins with the other
pub cut_prefix_apart :
    (u t s : String) → cut_prefix u t ≡ none → cut_prefix t u ≡ none → cut_prefix (u ++ s) t ≡ none
unfolding cut_prefix
cut_prefix_apart u [] s h k = absurd (ground (arith, h))
cut_prefix_apart [] (b ∷ t) s h k = absurd (ground (arith, k))
cut_prefix_apart (a ∷ u) (b ∷ t) s h k =
    rw (cons-append a u s) (ground (arith, cut_prefix_apart u t s, h, k))

pub has_prefix-append : (t s : String) → has_prefix (t ++ s) t ≡ true
unfolding has_prefix
has_prefix-append t s = rw (cut_prefix-append t s, has_prefix) refl

pub trim_prefix-append : (t s : String) → trim_prefix (t ++ s) t ≡ s
unfolding trim_prefix
trim_prefix-append t s = rw (cut_prefix-append t s, trim_prefix) refl

pub has_prefix_apart :
    (u t s : String) → cut_prefix u t ≡ none → cut_prefix t u ≡ none → has_prefix (u ++ s) t ≡ false
unfolding has_prefix
has_prefix_apart u t s h k = rw (cut_prefix_apart u t s h k, has_prefix) refl
