-- ===== src/Update.antt =====
-- internal/updatecheck/updatecheck.go: the comparison of versions, and the check for a new release. The exchange with
-- the release feed and the text of the time are parameters.
pub mod Order
pub mod Versions
mod Tests
use Prim.Native.Char.{code}
use Prim.Native.String.{[], ◌∷◌}
use serpent_seek.Prelude.{
  ℕ, ℤ, pos, negsuc, String, Bool, true, false, not, ◌&&◌, ◌||◌, Option, none, some, List, ltb, eqb,
  ◌==◌, if◌then◌else◌, trim_space, trim_prefix, cut_at, split, atoi, get_elem?, or_else,
}

-- -1, 0 and 1
pub data Sign : Type 0 where
  below same above : Sign

unfoldable pub compare_nat : ℕ → ℕ → Sign
compare_nat m n = if ltb m n then below else if ltb n m then above else same

-- the comparison of two numbers of versions
unfoldable pub compare_int : ℤ → ℤ → Sign
compare_int (pos m) (pos n) = compare_nat m n
compare_int (pos m) (negsuc n) = above
compare_int (negsuc m) (pos n) = below
compare_int (negsuc m) (negsuc n) = compare_nat n m

-- strings.Compare; the bytes of texts are ordered as their characters
unfoldable pub compare_text : String → String → Sign
compare_text [] [] = same
compare_text [] (d ∷ t) = below
compare_text (c ∷ s) [] = above
compare_text (c ∷ s) (d ∷ t) =
    let rest = compare_text s t in
    if ltb (code c) (code d) then below else if ltb (code d) (code c) then above else rest

-- the first comparison that does not find the values equal
abbrev pub then_by : Sign → Sign → Sign
then_by same y = y
then_by below y = below
then_by above y = above

-- the text without white space and the letter in front
unfoldable pub bare_version : String → String
bare_version v = trim_prefix (trim_prefix (trim_space v) "v") "V"

-- the text in front of a character, if it has it
unfoldable pub before : ℕ → String → String
before n s = elim (cut_at n s) [ none ↦ s | some (head, tail) ↦ head ]

unfoldable pub after : ℕ → String → String
after n s = elim (cut_at n s) [ none ↦ "" | some (head, tail) ↦ tail ]

-- the text in front of a dash or a plus sign
unfoldable pub before_suffix : String → String
before_suffix [] = []
before_suffix (c ∷ s) = if eqb (code c) 45 || eqb (code c) 43 then [] else c ∷ before_suffix s

-- Parseable
unfoldable pub parseable : String → Bool
parseable v =
    let bare = bare_version v in
    if bare == ""
    then false
    else elim (atoi (before_suffix (before 46 bare))) [ none ↦ false | some n ↦ true ]

-- the number of a part, 0 for one that is missing or is no number
unfoldable pub part_number : Option String → ℤ
part_number none = pos 0
part_number (some part) = or_else (atoi (trim_space part)) (pos 0)

pub record Version : Type 0 where
  pub major : ℤ
  pub minor : ℤ
  pub patch : ℤ
  pub pre : String

-- parse
unfoldable pub parse : String → Version
parse v =
    let released = before 43 (bare_version v) in
    let parts = split 46 (before 45 released) in
    record {
      major = part_number (get_elem? parts 0);
      minor = part_number (get_elem? parts 1);
      patch = part_number (get_elem? parts 2);
      pre = after 45 released;
    }

-- the end of CompareVersions: a release is above its prereleases
unfoldable pub compare_pre : String → String → Sign
compare_pre pa pb =
    if pa == "" && not (pb == "")
    then above
    else if not (pa == "") && pb == ""
    then below
    else compare_text pa pb

-- the loop and the end of CompareVersions
unfoldable pub compare_parsed : Version → Version → Sign
compare_parsed a b = then_by (compare_int a.major b.major) (
    then_by (compare_int a.minor b.minor)
      (then_by (compare_int a.patch b.patch) (compare_pre a.pre b.pre)))

-- CompareVersions
unfoldable pub compare_versions : String → String → Sign
compare_versions a b =
    if not (parseable a) || not (parseable b) then same else compare_parsed (parse a) (parse b)

-- what Check reads of a release, and what it answers; the two fields that the HTTP layer fills are left out
pub record Release : Type 0 where
  pub tag_name : String
  pub name : String
  pub html_url : String
  pub published_at : String
  pub prerelease : Bool
  pub draft : Bool

pub record CheckResult : Type 0 where
  pub enabled : Bool
  pub current : String
  pub latest : String
  pub update_available : Bool
  pub url : String
  pub name : String
  pub published_at : String
  pub prerelease : Bool
  pub checked_at : String

-- what the feed answers: an error, a status, or a status and a body that is no release
pub data Feed : Type 0 where
  fails : Feed
  answers : ℤ → Option Release → Feed

-- the result of a release
unfoldable pub release_result : String → Release → String → CheckResult
release_result current release now = record {
  enabled = true;
  current = current;
  latest = trim_prefix (trim_prefix release.tag_name "v") "V";
  update_available =
      not (release.tag_name == "")
      && not release.draft
      && elim (compare_versions current release.tag_name) [ below ↦ true | _ ↦ false ];
  url = release.html_url;
  name = release.name;
  published_at = release.published_at;
  prerelease = release.prerelease;
  checked_at = now;
}

-- Check: the answer, none for an error, and the result that the checker keeps
unfoldable pub check :
    (String → Feed)
    → String
    → String
    → String
    → Option CheckResult
    → Option CheckResult × Option CheckResult
check fetch url current now kept =
    if trim_space url == "" then (none, kept) else elim (fetch (trim_space url)) [
      | fails ↦ (none, kept)
      | answers (negsuc n) release ↦ (none, kept)
      | answers (pos status) none ↦ (none, kept)
      | answers (pos status) (some release) ↦
          if eqb status 200
          then (
            some (release_result current release now),
            some (release_result current release now),
          )
          else (none, kept)
    ]
