-- ===== src/Crypt.antt =====
-- internal/crypt/crypt.go: the optional encryption of secrets at rest. AES-GCM, base64, hex and the random
-- source are not in the repository: they are parameters, and so is the type of a byte.
mod Tests
use serpent_seek.Prelude.{
  ℕ, ◌+◌, ◌-◌, ◌≤◌, String, ◌≡◌, refl, ap, sym, ◌∙◌, inl, inr, Bool, true, false, not, ◌&&◌, ◌||◌,
  Option, none, some, List, [], ◌∷◌, ◌++◌, length, take, drop, ltb, eqb, ◌==◌, if◌then◌else◌, arith,
  append_text, trim_space, has_prefix, trim_prefix, has_prefix-append, trim_prefix-append,
  Bool-cases, Option-cases, or_else, eq_of_test, length-append, cut_prefix,
}

-- the libraries that the package calls
pub record Codecs (B : Type 0) : Type 0 where
  pub to_bytes : String → List B
  pub to_text : List B → String
  pub hex : String → Option (List B)
  -- base64.StdEncoding, RawStdEncoding, URLEncoding and RawURLEncoding
  pub std : String → Option (List B)
  pub raw_std : String → Option (List B)
  pub url : String → Option (List B)
  pub raw_url : String → Option (List B)
  -- base64.RawStdEncoding.EncodeToString
  pub encode : List B → String

-- cipher.AEAD
pub record Aead (B : Type 0) : Type 0 where
  pub nonce_size : ℕ
  pub seal : List B → List B → List B
  pub unseal : List B → List B → Option (List B)

-- prefix
abbrev pub enc_prefix : String
enc_prefix = "enc:v1:"

-- what New returns: no cipher, a cipher, or an error
pub data Made (B : Type 0) : Type 0 where
  disabled : Made B
  made : Aead B → Made B
  refused : Made B

prefixed_nonempty : (t : String) → (append_text enc_prefix t == "") ≡ false
unfolding has_prefix cut_prefix
prefixed_nonempty t = elim (Bool-cases (append_text enc_prefix t == "")) [
  | inr other ↦ other
  | inl blank ↦
      let starts : has_prefix "" enc_prefix ≡ true =
        ap (λ s. has_prefix s enc_prefix) (sym (eq_of_test (append_text enc_prefix t) "" blank))
        ∙ has_prefix-append enc_prefix t in
      absurd (ground (arith, starts))
]

module _ {B : Type 0} where
  -- a decoded key of 32 bytes
  unfoldable pub key_of : Option (List B) → Option (List B)
  key_of none = none
  key_of (some b) = if eqb (length b) 32 then some b else none

  -- the first of the results that is a key
  unfoldable pub first_key : List (Option (List B)) → Option (List B)
  first_key [] = none
  first_key (o ∷ rest) = elim (key_of o) [ none ↦ first_key rest | some b ↦ some b ]

  -- parseKey
  unfoldable pub parse_key : Codecs B → String → Option (List B)
  parse_key cs material =
      let size = length (cs.to_bytes material) in
      elim (if eqb size 64 then key_of (cs.hex material) else none) [
        | some b ↦ some b
        | none ↦
            elim (first_key (
              cs.std material ∷ cs.raw_std material ∷ cs.url material ∷ cs.raw_url material ∷ [])) [
                | some b ↦ some b
                | none ↦ if eqb size 32 then some (cs.to_bytes material) else none
              ]
      ]

  -- New, with aes.NewCipher and cipher.NewGCM as one parameter
  unfoldable pub new_cipher : Codecs B → (List B → Option (Aead B)) → String → Made B
  new_cipher cs gcm key_material =
      let material = trim_space key_material in
      if material == "" then disabled else elim (parse_key cs material) [
        | none ↦ refused
        | some key ↦ elim (gcm key) [ none ↦ refused | some aead ↦ made aead ]
      ]

  -- Encrypt, with the nonce that the random source gives
  unfoldable pub encrypt : Codecs B → Option (Aead B) → Option (List B) → String → String
  encrypt cs none iv plain = plain
  encrypt cs (some aead) none plain = plain
  encrypt cs (some aead) (some iv) plain =
      if plain == ""
      then plain
      else append_text enc_prefix (cs.encode (iv ++ aead.seal iv (cs.to_bytes plain)))

  -- the end of Decrypt: the value itself where the bytes cannot be opened
  unfoldable pub decrypt_bytes : Codecs B → Aead B → String → List B → String
  decrypt_bytes cs aead value raw =
      if ltb (length raw) aead.nonce_size
      then value
      else elim (aead.unseal (take aead.nonce_size raw) (drop aead.nonce_size raw)) [
        | none ↦ value
        | some plain ↦ cs.to_text plain
      ]

  -- Decrypt
  unfoldable pub decrypt : Codecs B → Option (Aead B) → String → String
  decrypt cs none value = value
  decrypt cs (some aead) value =
      if value == "" || not (has_prefix value enc_prefix)
      then value
      else elim (cs.raw_std (trim_prefix value enc_prefix)) [
        | none ↦ value
        | some raw ↦ decrypt_bytes cs aead value raw
      ]

  -- what the libraries promise
  pub record IsSound (cs : Codecs B) (aead : Aead B) : Type 0 where
    pub texts : (s : String) → cs.to_text (cs.to_bytes s) ≡ s
    pub decodes : (b : List B) → cs.raw_std (cs.encode b) ≡ some b
    pub unseals : (iv plain : List B) → aead.unseal iv (aead.seal iv plain) ≡ some plain

  take_left : (xs ys : List B) → take (length xs) (xs ++ ys) ≡ xs
  take_left [] ys = refl
  take_left (x ∷ xs) ys = ap (λ l. x ∷ l) (take_left xs ys)

  drop_left : (xs ys : List B) → drop (length xs) (xs ++ ys) ≡ ys
  drop_left [] ys = refl
  drop_left (x ∷ xs) ys = drop_left xs ys

  decrypt_bytes_lem :
      (cs : Codecs B) (aead : Aead B) (value plain : String) (iv : List B)
      → IsSound cs aead
      → length iv ≡ aead.nonce_size
      → decrypt_bytes cs aead value (iv ++ aead.seal iv (cs.to_bytes plain)) ≡ plain
  unfolding decrypt_bytes
  decrypt_bytes_lem cs aead value plain iv sound size =
      let sealed = aead.seal iv (cs.to_bytes plain) in
      let enough : ltb (length (iv ++ sealed)) aead.nonce_size ≡ false =
        ground (arith, length-append iv sealed, size) in
      let head : take aead.nonce_size (iv ++ sealed) ≡ iv =
        ap (λ n. take n (iv ++ sealed)) (sym size) ∙ take_left iv sealed in
      let tail : drop aead.nonce_size (iv ++ sealed) ≡ sealed =
        ap (λ n. drop n (iv ++ sealed)) (sym size) ∙ drop_left iv sealed in
      rw (enough, head, tail, sound.unseals iv (cs.to_bytes plain)) (sound.texts plain)

  -- Decrypt gives back every text that Encrypt was given, with the same cipher and a nonce of its size.
  pub decrypt-encrypt :
      (cs : Codecs B) (aead : Aead B) (iv : List B) (plain : String)
      → IsSound cs aead
      → length iv ≡ aead.nonce_size
      → decrypt cs (some aead) (encrypt cs (some aead) (some iv) plain) ≡ plain
  unfolding decrypt encrypt
  decrypt-encrypt cs aead iv plain sound size = elim (Bool-cases (plain == "")) [
    | inl blank ↦ rw (blank, blank) refl
    | inr filled ↦
        let raw = iv ++ aead.seal iv (cs.to_bytes plain) in
        let t = cs.encode raw in
        rw
          (
            filled,
            prefixed_nonempty t,
            has_prefix-append enc_prefix t,
            trim_prefix-append enc_prefix t,
            sound.decodes raw,
          )
          (decrypt_bytes_lem cs aead (encrypt cs (some aead) (some iv) plain) plain iv sound size)
  ]

  -- A key that parseKey accepts has 32 bytes.
  pub parse_key-length :
      (cs : Codecs B) (material : String) (key : List B)
      → parse_key cs material ≡ some key
      → length key ≡ 32
  unfolding parse_key first_key key_of
  parse_key-length cs material key h = ground (arith, h)
