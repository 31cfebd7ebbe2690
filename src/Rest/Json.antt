-- ===== src/Rest/Json.antt =====
-- internal/providers/rows.go: values of JSON, and the rows that are read from them. A number is a float64,
-- of which the type F and what Go does with it are parameters; so is the encoding of a value.
use serpent_seek.Prelude.{
  ℕ, ℤ, pos, String, Bool, Option, none, some, List, [], ◌∷◌, Dict, lookup, ◌==◌, if◌then◌else◌,
  trim_space,
}
use serpent_seek.Models.{Row}
use serpent_seek.Rest.Texts.{remove_code, leading_number}

mutual
  pub data Json (F : Type 0) : Type 0 where
    null : Json F
    boolean : Bool → Json F
    number : F → Json F
    text : String → Json F
    array : Elems F → Json F
    object : Props F → Json F

  pub data Elems (F : Type 0) : Type 0 where
    no_elems : Elems F
    elem : Json F → Elems F → Elems F

  pub data Props (F : Type 0) : Type 0 where
    no_props : Props F
    prop : String → Json F → Props F → Props F

-- what the drivers need of float64 and of encoding/json
pub record Floats (F : Type 0) : Type 0 where
  -- int(f), which cuts the fraction off
  pub to_int : F → ℤ
  -- int(f * 1000)
  pub to_millis : F → ℤ
  pub above_zero : F → Bool
  pub of_int : ℤ → F
  -- a constant, as a fraction
  pub literal : ℕ → ℕ → F
  -- strconv.ParseFloat
  pub parse_float : String → Option F
  -- the largest capacity of a slice of texts for which make does not panic
  pub max_texts : ℕ
  -- toJSON
  pub to_json : Json F → String

abbrev pub row_of : String → String → String → Row
row_of link title snippet = record { link = link; title = title; snippet = snippet; sources = [] }

-- a row, unless the link is empty
unfoldable pub linked : String → String → String → Option Row
linked link title snippet = if link == "" then none else some (row_of link title snippet)

module _ {F : Type 0} where
  abbrev pub elems : Elems F → List (Json F)
  elems no_elems = []
  elems (elem v vs) = v ∷ elems vs

  abbrev pub props : Props F → Dict (Json F)
  props no_props = []
  props (prop k v ps) = (k, v) ∷ props ps

  abbrev pub elems_of : List (Json F) → Elems F
  elems_of [] = no_elems
  elems_of (v ∷ vs) = elem v (elems_of vs)

  abbrev pub props_of : Dict (Json F) → Props F
  props_of [] = no_props
  props_of ((k, v) ∷ ps) = prop k v (props_of ps)

  -- v.([]any); nil for another value
  unfoldable pub list_of : Option (Json F) → List (Json F)
  list_of (some (array vs)) = elems vs
  list_of _ = []

  -- v.(map[string]any)
  unfoldable pub map_of : Option (Json F) → Option (Dict (Json F))
  map_of (some (object ps)) = some (props ps)
  map_of _ = none

  -- getArrayAtPath
  unfoldable pub value_at : Json F → List String → Option (Json F)
  value_at v [] = some v
  value_at v (seg ∷ path) = elim (map_of (some v)) [
    | none ↦ none
    | some m ↦ elim (lookup seg m) [ none ↦ value_at null path | some next ↦ value_at next path ]
  ]

  unfoldable pub array_at : Dict (Json F) → List String → List (Json F)
  array_at body path = list_of (value_at (object (props_of body)) path)

  module _ (go : Floats F) where
    -- asString. The inner Trim takes away less than TrimSpace does.
    unfoldable pub as_string : Option (Json F) → String
    as_string none = ""
    as_string (some null) = ""
    as_string (some (text t)) = trim_space t
    as_string (some v) = trim_space (remove_code 34 (go.to_json v))

    -- asInt
    unfoldable pub as_int : Json F → ℤ
    as_int (number f) = go.to_int f
    as_int (text t) = leading_number (trim_space t)
    as_int _ = pos 0

    -- firstString
    unfoldable pub first_string : Dict (Json F) → List String → String
    first_string m [] = ""
    first_string m (k ∷ ks) =
        let s = as_string (lookup k m) in if s == "" then first_string m ks else s

    -- toRow
    unfoldable pub to_row : Dict (Json F) → List String → String → List String → Option Row
    to_row m link_keys title_key snippet_keys =
        linked (first_string m link_keys) (first_string m (title_key ∷ []))
          (first_string m snippet_keys)

    -- a loop over the objects of an array, each of which gives a row or none
    unfoldable pub rows_of : (Dict (Json F) → Option Row) → List (Json F) → List Row
    rows_of convert [] = []
    rows_of convert (v ∷ vs) =
        let rest = rows_of convert vs in
        elim (map_of (some v)) [
          | none ↦ rest
          | some m ↦ elim (convert m) [ none ↦ rest | some row ↦ row ∷ rest ]
        ]

    -- collectRows
    unfoldable pub collect_rows : List (Json F) → List String → String → List String → List Row
    collect_rows vs link_keys title_key snippet_keys =
        rows_of (λ m. to_row m link_keys title_key snippet_keys) vs
