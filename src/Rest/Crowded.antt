-- ===== src/Rest/Crowded.antt =====
-- When openAlexAbstract of internal/providers/rest.go panics: a position that is too large for a slice.
use mathlib.Core.Path.{subst}
use serpent_seek.Prelude.{
  ℕ, ◌+◌, ◌≤◌, String, ◌≡◌, refl, ap, sym, ◌∙◌, inl, inr, ◌⊎◌, ◌↔◌, Bool, true, false, none, some,
  List, [], ◌∷◌, Dict, In, lookup, ltb, ◌==◌, arith, Bool-cases, Option-cases, Option, length, eqb,
  or_else,
}
use serpent_seek.Rest.Json.{Json, Floats, map_of}
use serpent_seek.Rest.Spec.{Extracted, extracted, panics}
use serpent_seek.Models.{Row}
use serpent_seek.Rest.Papers.{
  Positions, highest, place_words, with_row, open_alex_abstract, open_alex_link, open_alex_row,
  open_alex_item, open_alex_rows,
}

abbrev pub is_panics : Extracted → Bool
is_panics (extracted rows) = false
is_panics panics = true

-- a word at a position that is too large
abbrev pub HasPast : ℕ → Positions → Type 0
HasPast most at = (n : ℕ) × (word : String) × In (n, word) at × (most ≤ n)

highest-In : (n : ℕ) (word : String) (at : Positions) → In (n, word) at → n ≤ highest at
unfolding highest
highest-In n word [] h = absurd h
highest-In n word ((m, w) ∷ rest) (inl e) =
    let same : n ≡ m = ap (λ x. x.0) e in ground (arith, same)
highest-In n word ((m, w) ∷ rest) (inr h) =
    let low = highest-In n word rest h in ground (arith, low)

highest_found :
    (m : ℕ) (w : String) (rest : Positions) → HasPast (highest ((m, w) ∷ rest)) ((m, w) ∷ rest)
unfolding highest
highest_found m w [] = (m, w, inl refl, ground arith)
highest_found m w ((k, v) ∷ rest) =
    let (n, word, found, le) = highest_found k v rest in
    elim (Bool-cases (ltb (highest ((k, v) ∷ rest)) m)) [
      | inl larger ↦ (m, w, inl refl, ground (arith, larger))
      | inr smaller ↦ (n, word, inr found, ground (arith, smaller, le))
    ]

past_lem :
    (most : ℕ) (at : Positions)
    → (eqb (length at) 0 ≡ false) × (ltb most (highest at + 1) ≡ true) ↔ HasPast most at
past_lem most [] = (λ h. ground (arith, h.0), λ (n, word, h, le). absurd h)
past_lem most ((m, w) ∷ rest) = (
  λ h.
      let (n, word, found, le) = highest_found m w rest in
      let room = h.1 in (n, word, found, ground (arith, room, le)),
  λ (n, word, found, le).
      let low = highest-In n word ((m, w) ∷ rest) found in (ground arith, ground (arith, le, low)),
)

with_row_panics :
    (row : Option Row) (rest : Extracted) → is_panics (with_row row rest) ≡ is_panics rest
unfolding with_row
with_row_panics row panics = refl
with_row_panics none (extracted rows) = refl
with_row_panics (some row) (extracted rows) = refl

module _ {F : Type 0} (go : Floats F) where
  -- an object with a link, and an abstract with a word at a position that is too large
  abbrev pub IsCrowded : Dict (Json F) → Type 0
  IsCrowded m =
      ((open_alex_link go m == "") ≡ false)
      × ((index : Dict (Json F)) × (map_of (lookup "abstract_inverted_index" m) ≡ some index)
          × HasPast go.max_texts (place_words go index []))

  abbrev pub HasCrowded : List (Json F) → Type 0
  HasCrowded vs =
      (v : Json F) × In v vs × ((m : Dict (Json F)) × (map_of (some v) ≡ some m) × IsCrowded m)

  abstract_panic :
      (m : Dict (Json F))
      → (open_alex_abstract go m ≡ none) ↔ (
          (index : Dict (Json F)) × (map_of (lookup "abstract_inverted_index" m) ≡ some index)
          × HasPast go.max_texts (place_words go index []))
  unfolding open_alex_abstract
  abstract_panic m = elim (Option-cases (map_of (lookup "abstract_inverted_index" m))) [
    | inl missing ↦
        rw (missing, open_alex_abstract)
          (λ h. ground (arith, h), λ (index, e, past). ground (arith, e))
    | inr (index, at) ↦
        let past = past_lem go.max_texts (place_words go index []) in
        rw (at, open_alex_abstract)
          (
            λ h. (index, refl, past.0 (ground (arith, h))),
            λ (other, e, found).
                let one : index ≡ other = ap (λ o. or_else o index) e in
                let (filled, large) = past.1 ((rw one found)) in ground (arith, filled, large),
          )
  ]

  row_panic :
      (m : Dict (Json F)) (rest : Extracted)
      → (is_panics (open_alex_row go m rest) ≡ true) ↔ (IsCrowded m ⊎ (is_panics rest ≡ true))
  unfolding open_alex_row
  row_panic m rest =
      let panic = abstract_panic m in
      elim (Bool-cases (open_alex_link go m == "")) [
        | inl missing ↦
            rw (missing, open_alex_row)
              (λ h. inr h, λ e. elim e [ inl crowded ↦ ground (arith, crowded.0) | inr h ↦ h ])
        | inr filled ↦ elim (Option-cases (open_alex_abstract go m)) [
          | inl stops ↦
              rw (filled, stops, open_alex_row) (λ h. inl (refl, panic.0 stops), λ e. refl)
          | inr (snippet, written) ↦
              rw (filled, written, open_alex_row)
                (
                  λ h. inr (sym (with_row_panics _ rest) ∙ h),
                  λ e. elim e [
                    | inl crowded ↦ ground (arith, written, panic.1 crowded.1)
                    | inr h ↦ with_row_panics _ rest ∙ h
                  ],
                )
        ]
      ]

  item_panic :
      (v : Json F) (vs : List (Json F)) (o : Option (Dict (Json F)))
      → map_of (some v) ≡ o
      → (is_panics (open_alex_rows go vs) ≡ true) ↔ HasCrowded vs
      → (is_panics (open_alex_item go o (open_alex_rows go vs)) ≡ true) ↔ HasCrowded (v ∷ vs)
  unfolding open_alex_item
  item_panic v vs none e rest = (
    λ h. let (w, at, crowded) = rest.0 h in (w, inr at, crowded),
    λ (w, at, (k, f, crowded)). elim at [
      | inl same ↦ absurd (ground (arith, (sym f ∙ ap (λ x. map_of (some x)) same ∙ e)))
      | inr later ↦ rest.1 (w, later, (k, f, crowded))
    ],
  )
  item_panic v vs (some m) e rest =
      let here = row_panic m (open_alex_rows go vs) in
      (
        λ h. elim (here.0 h) [
          | inl crowded ↦ (v, inl refl, (m, e, crowded))
          | inr h' ↦ let (w, at, crowded) = rest.0 h' in (w, inr at, crowded)
        ],
        λ (w, at, (k, f, crowded)). here.1 (elim at [
          | inl same ↦
              let one : k ≡ m =
                ap (λ o. or_else o k) (sym f ∙ ap (λ x. map_of (some x)) same ∙ e) in
              inl (subst IsCrowded one crowded)
          | inr later ↦ inr (rest.1 (w, later, (k, f, crowded)))
        ]),
      )

  pub open_alex_rows_panic :
      (vs : List (Json F)) → (is_panics (open_alex_rows go vs) ≡ true) ↔ HasCrowded vs
  unfolding open_alex_rows
  open_alex_rows_panic [] = (λ h. ground (arith, h), λ (v, h, rest). absurd h)
  open_alex_rows_panic (v ∷ vs) = item_panic v vs (map_of (some v)) refl (open_alex_rows_panic vs)
