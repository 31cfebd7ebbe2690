-- ===== src/Prelude/Strings.antt =====
-- Go's `strings` functions on native texts.
use Prim.Native.Nat.{ℕ}
use Prim.Native.Char.{Char, code}
use Prim.Native.String.{String, [], ◌∷◌, ◌++◌}
use mathlib.Core.Path.{◌≡◌, refl, ap, ◌∙◌}
use mathlib.Core.Bool.{Bool, true, false, not, ◌&&◌, ◌||◌}
use mathlib.Core.Option.{Option, none, some}
use mathlib.Core.List as L
use mathlib.Core.List.{List}
use native.Mathlib.Omega.{arith}
use text.Mathlib.Text.{◌==◌}
use package.serpent_seek.Prelude.Tests.{leb, eqb, if◌then◌else◌}

-- every character's code passes a test
unfoldable pub all_codes : (ℕ → Bool) → String → Bool
all_codes p [] = true
all_codes p (c ∷ s) = p (code c) && all_codes p s

-- unicode.IsSpace
unfoldable pub is_space : ℕ → Bool
is_space n =
    leb 9 n && leb n 13
    || eqb n 32
    || eqb n 0x85
    || eqb n 0xa0
    || eqb n 0x1680
    || leb 0x2000 n && leb n 0x200a
    || eqb n 0x2028
    || eqb n 0x2029
    || eqb n 0x202f
    || eqb n 0x205f
    || eqb n 0x3000

trim_left : String → String
trim_left [] = []
trim_left (c ∷ s) = if is_space (code c) then trim_left s else c ∷ s

trim_right : String → String
trim_right [] = []
trim_right (c ∷ s) = let r = trim_right s in if is_space (code c) && r == "" then [] else c ∷ r

-- strings.TrimSpace
unfoldable pub trim_space : String → String
unfolding trim_left trim_right is_space
trim_space s = trim_right (trim_left s)

-- the character of the second text that stands where `c` stands in the first; else `c`
translate : String → String → Char → Char
translate [] t c = c
translate (a ∷ s) [] c = c
translate (a ∷ s) (b ∷ t) c = if eqb (code a) (code c) then b else translate s t c

-- strings.ToLower, on the letters whose lower-case form is an ASCII letter (the Kelvin sign and the
-- dotted capital I among them); no other letter can make a text equal to an ASCII word.
unfoldable pub to_lower : String → String
unfolding translate
to_lower [] = []
to_lower (c ∷ s) =
    translate "ABCDEFGHIJKLMNOPQRSTUVWXYZKİ" "abcdefghijklmnopqrstuvwxyzki" c ∷ to_lower s

-- strings.ToUpper, on the letters whose upper-case form is an ASCII letter (the dotless i and the long s
-- among them)
unfoldable pub to_upper : String → String
unfolding translate
to_upper [] = []
to_upper (c ∷ s) =
    translate "abcdefghijklmnopqrstuvwxyzıſ" "ABCDEFGHIJKLMNOPQRSTUVWXYZIS" c ∷ to_upper s

-- what follows the prefix `t` in `s`, if `s` begins with it
unfoldable pub cut_prefix : String → String → Option String
cut_prefix s [] = some s
cut_prefix [] (b ∷ t) = none
cut_prefix (a ∷ s) (b ∷ t) = if eqb (code a) (code b) then cut_prefix s t else none

-- strings.HasPrefix
unfoldable pub has_prefix : String → String → Bool
unfolding cut_prefix
has_prefix s t = elim (cut_prefix s t) [ none ↦ false | some _ ↦ true ]

-- strings.TrimPrefix
unfoldable pub trim_prefix : String → String → String
unfolding cut_prefix
trim_prefix s t = elim (cut_prefix s t) [ none ↦ s | some r ↦ r ]

-- strings.TrimSuffix, for a suffix of one character
unfoldable pub trim_last : String → ℕ → String
trim_last [] n = []
trim_last (c ∷ []) n = if eqb (code c) n then [] else c ∷ []
trim_last (c ∷ d ∷ s) n = c ∷ trim_last (d ∷ s) n

-- s + t
abbrev pub append_text : String → String → String
append_text s t = s ++ t

-- strings.Join
unfoldable pub join : List String → String → String
join L.[] sep = ""
join (L.◌∷◌ x L.[]) sep = x
join (L.◌∷◌ x (L.◌∷◌ y xs)) sep = x ++ sep ++ join (L.◌∷◌ y xs) sep

trim_left_plain : (s : String) → all_codes (λ n. not (is_space n)) s ≡ true → trim_left s ≡ s
unfolding trim_left all_codes
trim_left_plain [] h = refl
trim_left_plain (c ∷ s) h = ground (arith, h)

trim_right_plain : (s : String) → all_codes (λ n. not (is_space n)) s ≡ true → trim_right s ≡ s
unfolding trim_right all_codes
trim_right_plain [] h = refl
trim_right_plain (c ∷ s) h = ground (arith, h, trim_right_plain s)

-- a text without white space is left as it is
pub trim_space_plain : (s : String) → all_codes (λ n. not (is_space n)) s ≡ true → trim_space s ≡ s
unfolding trim_space
trim_space_plain s h = ap trim_right (trim_left_plain s h) ∙ trim_right_plain s h

trims : to_lower (trim_space " \tStArT \n") ≡ "start"
unfolding to_lower trim_space
trims = refl
