-- ===== src/Update/Versions.antt =====
-- CompareVersions of internal/updatecheck/updatecheck.go orders versions.
use serpent_seek.Prelude.{String, ◌≡◌, refl, ap, sym, ◌∙◌, true}
use serpent_seek.Update.{Sign, then_by, parseable, parse, compare_parsed, compare_versions}
use serpent_seek.Update.Order.{opposite, chained, compare_parsed-IsComparison}

parsed_lem :
    (a b : String)
    → parseable a ≡ true
    → parseable b ≡ true
    → compare_versions a b ≡ compare_parsed (parse a) (parse b)
unfolding compare_versions
parsed_lem a b good fine = rw (good, fine, compare_versions) refl

-- CompareVersions orders versions. If the comparison of a first version with a second one and that of the
-- second one with a third do not point in different directions, the first and the third compare in the
-- direction of these two, or as equal if neither has one; compared the other way round, in the opposite one.
pub compare_versions_chain :
    (a b c : String) (s : Sign)
    → parseable a ≡ true
    → parseable b ≡ true
    → parseable c ≡ true
    → then_by (compare_versions a b) (compare_versions b c) ≡ s
    → then_by (compare_versions b c) (compare_versions a b) ≡ s
    → (compare_versions a c ≡ s) × (compare_versions c a ≡ opposite s)
compare_versions_chain a b c s good fine last x y =
    let order = compare_parsed-IsComparison in
    let ab = parsed_lem a b good fine in
    let bc = parsed_lem b c fine last in
    let ac = parsed_lem a c good last in
    let e =
      ac
      ∙ chained order (parse a) (parse b) (parse c) s
          (ap (λ p. then_by p (compare_parsed (parse b) (parse c))) (sym ab)
            ∙ ap (then_by (compare_versions a b)) (sym bc)
            ∙ x)
          (ap (λ p. then_by p (compare_parsed (parse a) (parse b))) (sym bc)
            ∙ ap (then_by (compare_versions b c)) (sym ab)
            ∙ y) in
    (e, parsed_lem c a last good ∙ order.swaps (parse a) (parse c) ∙ ap opposite (sym ac ∙ e))
