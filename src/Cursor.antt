-- ===== src/Cursor.antt =====
-- internal/store/cursor.go: the cursors of pages. base64 is a parameter; the text of its bytes is taken
-- as the text that was encoded.
mod Tests
use Prim.Native.Char.{Char, code}
use serpent_seek.Prelude.{
  ℕ, String, ◌≡◌, refl, ap, sym, ◌∙◌, ◌≢◌, Bool, true, false, Option, none, some, List, [], ◌∷◌,
  ◌==◌, if◌then◌else◌, split, join, split-join, Free, Option-cases, Bool-cases, inl, inr,
  eq_of_test, eq_iff, arith, or_else,
}

-- cursorSep, "\x1f"
abbrev pub cursor_sep : Char
cursor_sep = "\u{1f}"

-- EncodeCursor
unfoldable pub encode_cursor : (String → String) → List String → String
encode_cursor encode [] = ""
encode_cursor encode (v ∷ values) = encode (join (v ∷ values) (String.◌∷◌ cursor_sep ""))

-- DecodeCursor
unfoldable pub decode_cursor : (String → Option String) → String → Option (List String)
decode_cursor decode token = if token == "" then none else elim (decode token) [
  | none ↦ none
  | some raw ↦ if raw == "" then none else some (split 31 raw)
]

-- base64.RawURLEncoding, as far as the cursors need it
pub record IsCodec (encode : String → String) (decode : String → Option String) : Type 0 where
  pub decodes : (s : String) → decode (encode s) ≡ some s
  pub decodes_empty : decode "" ≡ some ""

-- DecodeCursor reads back the values that EncodeCursor has packed, if none of them holds the separator
-- and they are not a single empty value.
pub decode_cursor-encode_cursor :
    (encode : String → String) (decode : String → Option String) (v : String) (values : List String)
    → IsCodec encode decode
    → Free cursor_sep (v ∷ values)
    → (join (v ∷ values) "\u{1f}" == "") ≡ false
    → decode_cursor decode (encode_cursor encode (v ∷ values)) ≡ some (v ∷ values)
unfolding decode_cursor encode_cursor
decode_cursor-encode_cursor encode decode v values codec free nonempty =
    let packed = join (v ∷ values) "\u{1f}" in
    let token = encode packed in
    elim (Bool-cases (token == "")) [
      | inl blank ↦
          let same : some packed ≡ some "" =
            sym (codec.decodes packed)
            ∙ ap decode (eq_of_test token "" blank)
            ∙ codec.decodes_empty in
          let e : packed ≡ "" = ap (λ o. or_else o "") same in
          absurd (ground (arith, nonempty, e, eq_iff packed ""))
      | inr filled ↦
          rw (filled, codec.decodes packed, nonempty)
            (ap some (split-join cursor_sep v values free))
    ]
