-- ===== src/Rest/Params.antt =====
-- internal/providers/params.go, and the parameters of internal/providers/rest.go that are not sent.
use serpent_seek.Prelude.{
  ℤ, pos, negsuc, String, Bool, false, List, [], ◌∷◌, Dict, lookup, or_else, any, eqb, ◌==◌,
  if◌then◌else◌, trim_space, split,
}
use serpent_seek.Config.Load.{csv_parts, ints_of}

-- params[key], with "" for a missing one
unfoldable pub param : String → Dict String → String
param key params = or_else (lookup key params) ""

-- defaultStr
unfoldable pub default_str : String → String → String
default_str v def = let trimmed = trim_space v in if trimmed == "" then def else trimmed

-- parseCSV
unfoldable pub parse_csv : String → List String
parse_csv v = csv_parts (split 44 v)

-- parseIntCSV
unfoldable pub parse_int_csv : String → List ℤ → List ℤ
parse_int_csv v def = elim (ints_of (parse_csv v)) [ [] ↦ def | n ∷ ns ↦ n ∷ ns ]

unfoldable pub same_int : ℤ → ℤ → Bool
same_int (pos m) (pos n) = eqb m n
same_int (negsuc m) (negsuc n) = eqb m n
same_int (pos m) (negsuc n) = false
same_int (negsuc m) (pos n) = false

-- containsInt
unfoldable pub contains_int : List ℤ → ℤ → Bool
contains_int list needle = any (λ n. same_int n needle) list

-- containsStr
unfoldable pub contains_str : List String → String → Bool
contains_str list needle = any (λ s. s == needle) list

abbrev pub internal_params : List String
internal_params =
    "base_url" ∷ "fatal_http" ∷ "retry_http_codes" ∷ "ap_retry_codes" ∷ "fatal_codes" ∷ "driver"
    ∷ "driver_mode" ∷ "model" ∷ "treat_empty_as_fail" ∷ "include_gen_answer" ∷ "max_rps" ∷ []

-- isInternalParam
unfoldable pub is_internal_param : String → Bool
is_internal_param key = contains_str internal_params key
