-- ===== src/Auth/Hash.antt =====
-- HashSecret and VerifySecret of internal/auth/keys.go. argon2, base64, the random salt and Sscanf are
-- not in the repository: they are the fields of a record.
use serpent_seek.Prelude.{
  ℕ, String, ◌≡◌, refl, ap, sym, ◌∙◌, or_else, Bool, true, false, not, Option, none, some, List, [],
  ◌∷◌, eqb, ◌==◌, if◌then◌else◌, split, join, append_text, all_codes, split-join, all_codes-append,
}

pub record Crypto (Bytes : Type 0) : Type 0 where
  -- base64.RawStdEncoding
  pub encode : Bytes → String
  pub decode : String → Option Bytes
  -- fmt.Sscanf with "m=%d,t=%d,p=%d"
  pub scan : String → Option (ℕ × ℕ × ℕ)
  -- argon2.IDKey: secret, salt, time, memory, threads, length
  pub id_key : String → Bytes → ℕ → ℕ → ℕ → ℕ → Bytes
  pub size : Bytes → ℕ
  -- subtle.ConstantTimeCompare(a, b) == 1
  pub same : Bytes → Bytes → Bool
  -- argon2.Version in decimal
  pub version : String

-- argonTime, argonMemory, argonThreads and argonKeyLen
abbrev pub argon_time : ℕ
argon_time = 3

abbrev pub argon_memory : ℕ
argon_memory = 16384

abbrev pub argon_threads : ℕ
argon_threads = 2

abbrev pub argon_key_len : ℕ
argon_key_len = 32

-- the memory, time and threads in the format of HashSecret
abbrev pub params_text : String
params_text = "m=16384,t=3,p=2"

module _ {Bytes : Type 0} (c : Crypto Bytes) where
  -- HashSecret for the random bytes of its salt; none where they cannot be read
  unfoldable pub hash_secret : Option Bytes → String → Option String
  hash_secret none secret = none
  hash_secret (some salt) secret =
      let key = c.id_key secret salt argon_time argon_memory argon_threads argon_key_len in
      some (
        join
          ("argon2id"
            ∷ append_text "v=" c.version
            ∷ params_text
            ∷ c.encode salt
            ∷ c.encode key
            ∷ [])
          "$")

  -- the comparison of VerifySecret, for a decoded salt and key
  unfoldable pub verify_key : ℕ × ℕ × ℕ → String → Bytes → Bytes → Bool
  verify_key (memory, time, threads) secret salt want =
      c.same (c.id_key secret salt time memory threads (c.size want)) want

  unfoldable pub verify_parts : String → List String → Bool
  verify_parts secret (name ∷ version ∷ params ∷ salt_text ∷ key_text ∷ []) =
      if name == "argon2id"
      then elim (c.scan params) [
        | none ↦ false
        | some costs ↦ elim (c.decode salt_text) [
          | none ↦ false
          | some salt ↦ elim (c.decode key_text) [
            | none ↦ false
            | some want ↦ verify_key costs secret salt want
          ]
        ]
      ]
      else false
  verify_parts secret parts = false

  -- VerifySecret: the hash and the secret
  unfoldable pub verify_secret : String → String → Bool
  verify_secret encoded secret = verify_parts secret (split 36 encoded)

  abbrev NoDollar : String → Type 0
  NoDollar s = all_codes (λ n. not (eqb n 36)) s ≡ true

  -- what the libraries promise
  pub record IsSound : Type 0 where
    pub decodes : (b : Bytes) → c.decode (c.encode b) ≡ some b
    pub scans : c.scan params_text ≡ some (argon_memory, argon_time, argon_threads)
    pub sizes :
        (secret : String) (salt : Bytes) (time memory threads length : ℕ)
        → c.size (c.id_key secret salt time memory threads length) ≡ length
    pub reflects : (b : Bytes) → c.same b b ≡ true
    pub no_dollar : (b : Bytes) → NoDollar (c.encode b)
    pub version_plain : NoDollar c.version

  -- VerifySecret accepts the secret against every hash that HashSecret makes of it.
  verify_secret-hash_secret :
      (salt : Bytes) (secret hash : String)
      → IsSound
      → hash_secret (some salt) secret ≡ some hash
      → verify_secret hash secret ≡ true
  unfolding hash_secret verify_secret verify_parts verify_key all_codes
  verify_secret-hash_secret salt secret hash sound made =
      let key = c.id_key secret salt 3 16384 2 32 in
      let parts : List String =
        "argon2id" ∷ append_text "v=" c.version ∷ params_text ∷ c.encode salt ∷ c.encode key ∷ [] in
      let rest : List String =
        append_text "v=" c.version ∷ params_text ∷ c.encode salt ∷ c.encode key ∷ [] in
      let version : NoDollar (append_text "v=" c.version) =
        all_codes-append (λ n. not (eqb n 36)) "v=" c.version ∙ rw sound.version_plain refl in
      let read : split 36 hash ≡ parts =
        ap (λ h. split 36 (or_else h "")) (sym made)
        ∙ split-join "$" "argon2id" rest
            (refl, (version, (refl, (sound.no_dollar salt, (sound.no_dollar key, tt))))) in
      rw (read, sound.scans, sound.decodes salt, sound.decodes key)
        (ap (λ n. c.same (c.id_key secret salt 3 16384 2 n) key)
            (sound.sizes secret salt 3 16384 2 32)
          ∙ sound.reflects key)
