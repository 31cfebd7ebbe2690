-- ===== src/Auth/Keys.antt =====
-- internal/auth/keys.go: the text of an API key and the hash of its secret. Random bytes, base64,
-- argon2 and the scan of its parameters are not in the repository: they are parameters.
use text.Mathlib.TextLemmas.{cons-append, nil-append}
use serpent_seek.Prelude.{
  ℕ, String, ◌≡◌, refl, ap, ◌∙◌, Bool, true, false, not, ◌&&◌, ◌||◌, Option, none, some, eqb, leb,
  ◌==◌, if◌then◌else◌, arith, has_prefix, trim_prefix, cut_prefix, trim_space, cut_at, all_codes,
  is_space, append_text, all_codes-append, all_codes_mono, cut_at-append, trim_space_plain,
  has_prefix-append, has_prefix_apart, trim_prefix-append,
}

pub data KeyKind : Type 0 where
  search : KeyKind
  admin : KeyKind
  developer : KeyKind

-- SearchKeyPrefix, AdminKeyPrefix and DeveloperKeyPrefix
abbrev pub key_prefix : KeyKind → String
key_prefix search = "seek_ak_"
key_prefix admin = "seek_admin_"
key_prefix developer = "seek_dev_"

abbrev pub is_developer_kind : KeyKind → Bool
is_developer_kind developer = true
is_developer_kind admin = false
is_developer_kind search = false

abbrev pub is_admin_kind : KeyKind → Bool
is_admin_kind admin = true
is_admin_kind developer = false
is_admin_kind search = false

-- what follows the kind: the prefix and the secret, neither empty
unfoldable pub parse_parts : KeyKind → String → Option (KeyKind × String × String)
parse_parts kind rest = elim (cut_at 95 rest) [
  | none ↦ none
  | some (prefix, secret) ↦
      if prefix == "" || secret == "" then none else some (kind, prefix, secret)
]

-- the switch of ParseKey, on a token without white space around it
unfoldable pub parse_kind : String → Option (KeyKind × String × String)
parse_kind token =
    if has_prefix token (key_prefix admin)
    then parse_parts admin (trim_prefix token (key_prefix admin))
    else if has_prefix token (key_prefix developer)
    then parse_parts developer (trim_prefix token (key_prefix developer))
    else if has_prefix token (key_prefix search)
    then parse_parts search (trim_prefix token (key_prefix search))
    else none

-- ParseKey
unfoldable pub parse_key : String → Option (KeyKind × String × String)
parse_key token = parse_kind (trim_space token)

-- the text that generate returns for its random prefix and secret
unfoldable pub key_text : KeyKind → String → String → String
key_text kind prefix secret =
    append_text (key_prefix kind) (append_text prefix (append_text "_" secret))

-- the characters of hex.EncodeToString
abbrev pub is_hex : ℕ → Bool
is_hex n = leb 48 n && leb n 57 || leb 97 n && leb n 102

abbrev pub IsHex : String → Type 0
IsHex s = (all_codes is_hex s ≡ true) × ((s == "") ≡ false)

hex_plain : (n : ℕ) → is_hex n ≡ true → not (is_space n) ≡ true
unfolding is_space
hex_plain n h = ground (arith, h)

hex_not_underscore : (n : ℕ) → is_hex n ≡ true → not (eqb n 95) ≡ true
hex_not_underscore n h = ground (arith, h)

prefix_plain : (kind : KeyKind) → all_codes (λ n. not (is_space n)) (key_prefix kind) ≡ true
unfolding all_codes is_space
prefix_plain search = refl
prefix_plain admin = refl
prefix_plain developer = refl

key_text_plain :
    (kind : KeyKind) (prefix secret : String)
    → IsHex prefix
    → IsHex secret
    → all_codes (λ n. not (is_space n)) (key_text kind prefix secret) ≡ true
unfolding key_text all_codes is_space
key_text_plain kind prefix secret (hp, np) (hs, ns) =
    let plain : ℕ → Bool = λ n. not (is_space n) in
    let tail = append_text "_" secret in
    all_codes-append plain (key_prefix kind) (append_text prefix tail)
    ∙ rw
        (
          prefix_plain kind,
          all_codes-append plain prefix tail,
          all_codes_mono is_hex plain prefix hex_plain hp,
          all_codes-append plain "_" secret,
          all_codes_mono is_hex plain secret hex_plain hs,
        )
        refl

parse_parts_lem :
    (kind : KeyKind) (prefix secret : String)
    → IsHex prefix
    → IsHex secret
    → parse_parts kind (append_text prefix (append_text "_" secret)) ≡ some (kind, prefix, secret)
unfolding parse_parts
parse_parts_lem kind prefix secret (hp, np) (hs, ns) =
    let found : cut_at 95 (append_text prefix (append_text "_" secret)) ≡ some (prefix, secret) =
      ap (λ t. cut_at 95 (append_text prefix t))
        (cons-append "_" "" secret ∙ ap (λ t. String.◌∷◌ "_" t) (nil-append secret))
      ∙ cut_at-append "_" prefix secret
          (all_codes_mono is_hex (λ n. not (eqb n 95)) prefix hex_not_underscore hp) in
    rw (found, np, ns, parse_parts) refl

parse_kind_lem :
    (kind : KeyKind) (rest : String)
    → parse_kind (append_text (key_prefix kind) rest) ≡ parse_parts kind rest
unfolding parse_kind cut_prefix
parse_kind_lem admin rest =
    rw (has_prefix-append "seek_admin_" rest, trim_prefix-append "seek_admin_" rest) refl
parse_kind_lem developer rest =
    rw
      (
        has_prefix_apart "seek_dev_" "seek_admin_" rest refl refl,
        has_prefix-append "seek_dev_" rest,
        trim_prefix-append "seek_dev_" rest,
      )
      refl
parse_kind_lem search rest =
    rw
      (
        has_prefix_apart "seek_ak_" "seek_admin_" rest refl refl,
        has_prefix_apart "seek_ak_" "seek_dev_" rest refl refl,
        has_prefix-append "seek_ak_" rest,
        trim_prefix-append "seek_ak_" rest,
      )
      refl

-- ParseKey reads the kind, the prefix and the secret back from the text of a key whose prefix and secret
-- are not empty and hexadecimal, as those of a generated key are.
pub parse_key-key_text :
    (kind : KeyKind) (prefix secret : String)
    → IsHex prefix
    → IsHex secret
    → parse_key (key_text kind prefix secret) ≡ some (kind, prefix, secret)
unfolding parse_key key_text
parse_key-key_text kind prefix secret hp hs =
    ap parse_kind
      (trim_space_plain (key_text kind prefix secret) (key_text_plain kind prefix secret hp hs))
    ∙ parse_kind_lem kind (append_text prefix (append_text "_" secret))
    ∙ parse_parts_lem kind prefix secret hp hs
