-- ===== src/Update/Tests.antt =====
-- A release after its candidate, and a candidate after another one.
use serpent_seek.Prelude.{◌≡◌, refl, ap, true, trim_space, trim_prefix, cut_at, split, atoi}
use serpent_seek.Update.{
  below, then_by, parseable, parse, compare_parsed, compare_versions, bare_version, before_suffix,
  before, after, part_number, compare_int, compare_nat, compare_pre, compare_text,
}
use serpent_seek.Update.Order.{opposite}
use serpent_seek.Update.Versions.{compare_versions_chain}

candidate : parseable "1.2.0-rc.1" ≡ true
unfolding parseable bare_version before_suffix before trim_space trim_prefix cut_at atoi
candidate = refl

release : parseable "v1.2.0" ≡ true
unfolding parseable bare_version before_suffix before trim_space trim_prefix cut_at atoi
release = refl

later : parseable "1.10" ≡ true
unfolding parseable bare_version before_suffix before trim_space trim_prefix cut_at atoi
later = refl

candidate_release : compare_versions "1.2.0-rc.1" "v1.2.0" ≡ below
unfolding compare_versions parseable bare_version before_suffix before after parse part_number
    compare_parsed compare_int compare_nat compare_pre compare_text trim_space trim_prefix cut_at
    split atoi
candidate_release = refl

release_later : compare_versions "v1.2.0" "1.10" ≡ below
unfolding compare_versions parseable bare_version before_suffix before after parse part_number
    compare_parsed compare_int compare_nat compare_pre compare_text trim_space trim_prefix cut_at
    split atoi
release_later = refl

-- a candidate, its release and a later one
compare_versions_chain_example :
    (compare_versions "1.2.0-rc.1" "1.10" ≡ below)
    × (compare_versions "1.10" "1.2.0-rc.1" ≡ opposite below)
compare_versions_chain_example =
    compare_versions_chain "1.2.0-rc.1" "v1.2.0" "1.10" below candidate release later
      (ap (λ p. then_by p (compare_versions "v1.2.0" "1.10")) candidate_release)
      (ap (λ p. then_by p (compare_versions "1.2.0-rc.1" "v1.2.0")) release_later)

-- the candidates are compared as texts
tenth_candidate : compare_versions "1.0.0-rc.10" "1.0.0-rc.9" ≡ below
unfolding compare_versions parseable bare_version before_suffix before after parse part_number
    compare_parsed compare_int compare_nat compare_pre compare_text trim_space trim_prefix cut_at
    split atoi
tenth_candidate = refl

later_minor : compare_versions "v1.9.3" "1.10" ≡ below
unfolding compare_versions parseable bare_version before_suffix before after parse part_number
    compare_parsed compare_int compare_nat compare_pre compare_text trim_space trim_prefix cut_at
    split atoi
later_minor = refl
