-- ===== src/Rest/Texts.antt =====
-- The helpers on texts of internal/providers/rest.go and rows.go. A text is a list of characters; where Go
-- counts bytes, a character counts as many as its UTF-8 form has.
use Prim.Native.Char.{Char, code}
use Prim.Native.String.{[], ◌∷◌, ◌++◌}
use serpent_seek.Prelude.{
  ℕ, ◌+◌, ◌-◌, ◌*◌, ℤ, pos, negsuc, String, Bool, true, false, ◌&&◌, ◌||◌, Option, none, some, ltb,
  leb, eqb, ◌==◌, if◌then◌else◌, trim_space, int_bound, has_prefix,
}
use Prim.Native.Nat.{◌%◌}

-- strings.ReplaceAll(s, c, "")
unfoldable pub remove_code : ℕ → String → String
remove_code n [] = []
remove_code n (c ∷ s) = if eqb (code c) n then remove_code n s else c ∷ remove_code n s

-- strings.TrimRight(s, c)
unfoldable pub trim_right_code : ℕ → String → String
trim_right_code n [] = []
trim_right_code n (c ∷ s) =
    let r = trim_right_code n s in if eqb (code c) n && r == "" then [] else c ∷ r

-- the integer of 64 bits that a number wraps around to
unfoldable pub wrap_int : ℕ → ℤ
wrap_int n =
    let low = n % (2 * int_bound) in
    if ltb low int_bound then pos low else negsuc (2 * int_bound - 1 - low)

-- the loop of asInt: the digits that a text starts with
unfoldable pub read_digits : String → ℕ → ℕ
read_digits [] n = n
read_digits (c ∷ s) n =
    let rest = read_digits s (n * 10 + (code c - 48)) in
    if leb 48 (code c) && leb (code c) 57 then rest else n

unfoldable pub leading_number : String → ℤ
leading_number s = wrap_int (read_digits s 0)

-- strings.Contains
unfoldable pub contains_text : String → String → Bool
contains_text [] t = t == ""
contains_text (c ∷ s) t = has_prefix (c ∷ s) t || contains_text s t

-- the bytes of a character
unfoldable pub width : Char → ℕ
width c =
    if ltb (code c) 0x80
    then 1
    else if ltb (code c) 0x800
    then 2
    else if ltb (code c) 0x10000
    then 3
    else 4

-- len(s)
unfoldable pub byte_len : String → ℕ
byte_len [] = 0
byte_len (c ∷ s) = width c + byte_len s

-- s[:max], up to the last whole character
unfoldable pub cut_bytes : ℕ → String → String
cut_bytes max [] = []
cut_bytes max (c ∷ s) =
    let rest = cut_bytes (max - width c) s in if ltb max (width c) then [] else c ∷ rest

-- s[:i] for the last space, if that does not come first
unfoldable pub before_last_space : String → Option String
before_last_space [] = none
before_last_space (c ∷ s) = elim (before_last_space s) [
  | some head ↦ some (c ∷ head)
  | none ↦ if eqb (code c) 32 then some [] else none
]

unfoldable pub cut_words : String → String
cut_words s = elim (before_last_space s) [ none ↦ s | some head ↦ if head == "" then s else head ]

-- truncateString
unfoldable pub truncate_string : String → ℕ → String
truncate_string s max =
    let trimmed = trim_space s in
    if eqb max 0 || leb (byte_len trimmed) max
    then trimmed
    else trim_space (cut_words (cut_bytes max trimmed)) ++ "…"

-- the loop of stripHTML
unfoldable pub outside_tags : Bool → String → String
outside_tags in_tag [] = []
outside_tags in_tag (c ∷ s) =
    if eqb (code c) 60
    then outside_tags true s
    else if eqb (code c) 62
    then outside_tags false s
    else if in_tag
    then outside_tags in_tag s
    else c ∷ outside_tags in_tag s

-- stripHTML
unfoldable pub strip_html : String → String
strip_html s = trim_space (outside_tags false s)
