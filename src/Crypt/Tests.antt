-- ===== src/Crypt/Tests.antt =====
-- A cipher that hides nothing, over characters as bytes: it keeps what the package relies on.
use Prim.Native.Char.{Char}
use serpent_seek.Prelude.{String, ◌≡◌, refl, ap, none, some, List, [], ◌∷◌, length}
use serpent_seek.Crypt.{
  first_key, key_of, Codecs, Aead, IsSound, encrypt, decrypt, decrypt-encrypt, parse_key,
  parse_key-length,
}

abbrev chars : String → List Char
chars String.[] = []
chars (String.◌∷◌ c s) = c ∷ chars s

abbrev text : List Char → String
text [] = String.[]
text (c ∷ cs) = String.◌∷◌ c (text cs)

abbrev plain_codecs : Codecs Char
plain_codecs = record {
  to_bytes = chars;
  to_text = text;
  hex = λ s. none;
  std = λ s. some (chars s);
  raw_std = λ s. some (chars s);
  url = λ s. none;
  raw_url = λ s. none;
  encode = text;
}

abbrev plain_aead : Aead Char
plain_aead = record { nonce_size = 2; seal = λ iv plain. plain; unseal = λ iv sealed. some sealed }

text-chars : (s : String) → text (chars s) ≡ s
text-chars String.[] = refl
text-chars (String.◌∷◌ c s) = ap (λ t. String.◌∷◌ c t) (text-chars s)

chars-text : (cs : List Char) → chars (text cs) ≡ cs
chars-text [] = refl
chars-text (c ∷ cs) = ap (λ t. c ∷ t) (chars-text cs)

plain-IsSound : IsSound plain_codecs plain_aead
plain-IsSound = record {
  texts = text-chars;
  decodes = λ cs. ap some (chars-text cs);
  unseals = λ iv plain. refl;
}

abbrev two : List Char
two = "a" ∷ "b" ∷ []

decrypt-encrypt_example :
    decrypt plain_codecs
      (some plain_aead)
      (encrypt plain_codecs (some plain_aead) (some two) "secret")
    ≡ "secret"
decrypt-encrypt_example = decrypt-encrypt plain_codecs plain_aead two "secret" plain-IsSound refl

abbrev material : String
material = "0123456789abcdef0123456789abcdef"

parse_key-length_example : length (chars material) ≡ 32
unfolding parse_key first_key key_of
parse_key-length_example = parse_key-length plain_codecs material (chars material) refl
