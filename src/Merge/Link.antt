-- ===== src/Merge/Link.antt =====
-- normalizeLink of dedupe.go. Go's `net/url` is a parameter.
use serpent_seek.Prelude.{
  String, Bool, ◌||◌, Option, none, some, List, [], ◌∷◌, Dict, any, trim_space, to_lower,
  trim_prefix, has_prefix, trim_last, ◌==◌, if◌then◌else◌,
}

-- The parts of a parsed URL that the program touches, and the others as one value.
pub record Url (Rest : Type 0) : Type 0 where
  pub scheme : String
  pub host : String
  pub path : String
  pub fragment : String
  pub raw_fragment : String
  pub raw_query : String
  pub rest : Rest

-- url.Parse, URL.String, url.ParseQuery and Values.Encode
pub record UrlPackage (Rest : Type 0) : Type 0 where
  pub parse : String → Option (Url Rest)
  pub print : Url Rest → String
  pub query : String → Dict (List String)
  pub encode : Dict (List String) → String

abbrev pub tracking_params : List String
tracking_params =
    "gclid" ∷ "dclid" ∷ "fbclid" ∷ "yclid" ∷ "twclid" ∷ "msclkid" ∷ "mc_cid" ∷ "mc_eid" ∷ "igshid"
    ∷ "spm" ∷ "_openstat" ∷ []

unfoldable pub is_tracking : String → Bool
unfolding to_lower has_prefix
is_tracking key = let k = to_lower key in has_prefix k "utm_" || any (λ t. t == k) tracking_params

-- the loop that deletes the tracking keys
unfoldable pub drop_tracking : Dict (List String) → Dict (List String)
unfolding is_tracking
drop_tracking [] = []
drop_tracking ((k, v) ∷ q) =
    let rest = drop_tracking q in if is_tracking k then rest else (k, v) ∷ rest

module _ {Rest : Type 0} (package_url : UrlPackage Rest) where
  open package_url use {parse, print, query, encode}

  unfoldable pub clean : Url Rest → Url Rest
  unfolding drop_tracking to_lower trim_prefix trim_last
  clean u = record u {
    scheme = to_lower u.scheme;
    host = trim_prefix (to_lower u.host) "www.";
    fragment = "";
    raw_fragment = "";
    path = trim_last u.path b'/';
    raw_query =
        if u.raw_query == "" then u.raw_query else encode (drop_tracking (query u.raw_query));
  }

  unfoldable pub normalize_link : String → String
  unfolding clean to_lower trim_space
  normalize_link raw =
      let trimmed = trim_space raw in
      elim (parse trimmed) [
        | none ↦ to_lower trimmed
        | some u ↦ if u.host == "" then to_lower trimmed else print (clean u)
      ]
