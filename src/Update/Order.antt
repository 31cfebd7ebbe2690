-- ===== src/Update/Order.antt =====
-- Comparisons by a sign, and the ones of internal/updatecheck/updatecheck.go.
use Prim.Native.String.{[], ◌∷◌}
use serpent_seek.Prelude.{
  ℤ, pos, negsuc, String, ◌≡◌, refl, ap, sym, ◌∙◌, ◌==◌, if◌then◌else◌, arith,
}
use serpent_seek.Update.{
  Sign, below, same, above, then_by, compare_nat, compare_int, compare_text, compare_pre,
  compare_parsed,
}

abbrev pub opposite : Sign → Sign
opposite below = above
opposite same = same
opposite above = below

-- a comparison of which the values that are equal to each other compare in the same way
pub record IsComparison {A : Type 0} (cmp : A → A → Sign) : Type 0 where
  pub swaps : (a b : A) → cmp b a ≡ opposite (cmp a b)
  pub chains : (a b c : A) → cmp a b ≡ below → cmp b c ≡ below → cmp a c ≡ below
  pub agrees : (a b c : A) → cmp a b ≡ same → cmp a c ≡ cmp b c

-- two comparisons that do not point in different directions
pub chained :
    {A : Type 0} {cmp : A → A → Sign}
    → IsComparison cmp
    → (a b c : A) (s : Sign) → then_by (cmp a b) (cmp b c) ≡ s
    → then_by (cmp b c) (cmp a b) ≡ s
    → cmp a c ≡ s
chained order a b c s x y = ground (
  arith,
  x,
  y,
  order.chains a b c,
  order.chains c b a,
  order.agrees a b c,
  order.agrees c b a,
  order.swaps a b,
  order.swaps b c,
  order.swaps a c,
)

compare_nat-IsComparison : IsComparison compare_nat
unfolding compare_nat
compare_nat-IsComparison = record {
  swaps = λ a b. ground arith;
  chains = λ a b c ab bc. ground (arith, ab, bc);
  agrees = λ a b c ab. ground (arith, ab);
}

then_by-IsComparison :
    {A : Type 0} (cmp next : A → A → Sign)
    → IsComparison cmp
    → IsComparison next
    → IsComparison (λ a b. then_by (cmp a b) (next a b))
then_by-IsComparison cmp next first second = record {
  swaps = λ a b. ground (arith, first.swaps a b, second.swaps a b);
  chains = λ a b c ab bc. ground (
    arith,
    ab,
    bc,
    first.chains a b c,
    second.chains a b c,
    first.agrees a b c,
    first.swaps a b,
    first.swaps b c,
    first.swaps a c,
    first.agrees c b a,
  );
  agrees = λ a b c ab. ground (arith, ab, first.agrees a b c, second.agrees a b c);
}

compare_int-opposite : (a b : ℤ) → compare_int b a ≡ opposite (compare_int a b)
unfolding compare_int compare_nat
compare_int-opposite (pos m) (pos n) = ground arith
compare_int-opposite (pos m) (negsuc n) = refl
compare_int-opposite (negsuc m) (pos n) = refl
compare_int-opposite (negsuc m) (negsuc n) = ground arith

compare_int_chain :
    (a b c : ℤ) → compare_int a b ≡ below → compare_int b c ≡ below → compare_int a c ≡ below
unfolding compare_int compare_nat
compare_int_chain (pos l) (pos m) (pos n) ab bc = ground (arith, ab, bc)
compare_int_chain (pos l) (pos m) (negsuc n) ab bc = bc
compare_int_chain (pos l) (negsuc m) c ab bc = ground (arith, ab)
compare_int_chain (negsuc l) b (pos n) ab bc = refl
compare_int_chain (negsuc l) (pos m) (negsuc n) ab bc = ground (arith, bc)
compare_int_chain (negsuc l) (negsuc m) (negsuc n) ab bc = ground (arith, ab, bc)

compare_int_same : (a b c : ℤ) → compare_int a b ≡ same → compare_int a c ≡ compare_int b c
unfolding compare_int compare_nat
compare_int_same (pos l) (pos m) (pos n) ab = ground (arith, ab)
compare_int_same (pos l) (pos m) (negsuc n) ab = refl
compare_int_same (pos l) (negsuc m) c ab = ground (arith, ab)
compare_int_same (negsuc l) (pos m) c ab = ground (arith, ab)
compare_int_same (negsuc l) (negsuc m) (pos n) ab = refl
compare_int_same (negsuc l) (negsuc m) (negsuc n) ab = ground (arith, ab)

compare_int-IsComparison : IsComparison compare_int
compare_int-IsComparison = record {
  swaps = compare_int-opposite;
  chains = compare_int_chain;
  agrees = compare_int_same;
}

compare_text-opposite : (s t : String) → compare_text t s ≡ opposite (compare_text s t)
unfolding compare_text
compare_text-opposite [] [] = refl
compare_text-opposite [] (d ∷ t) = refl
compare_text-opposite (c ∷ s) [] = refl
compare_text-opposite (c ∷ s) (d ∷ t) = ground (arith, compare_text-opposite s t)

compare_text_chain :
    (s t u : String)
    → compare_text s t ≡ below
    → compare_text t u ≡ below
    → compare_text s u ≡ below
unfolding compare_text
compare_text_chain [] [] [] st tu = st
compare_text_chain [] (d ∷ t) [] st tu = ground (arith, tu)
compare_text_chain [] t (e ∷ u) st tu = refl
compare_text_chain (c ∷ s) [] u st tu = ground (arith, st)
compare_text_chain (c ∷ s) (d ∷ t) [] st tu = tu
compare_text_chain (c ∷ s) (d ∷ t) (e ∷ u) st tu = ground (arith, st, tu, compare_text_chain s t u)

compare_text_same : (s t u : String) → compare_text s t ≡ same → compare_text s u ≡ compare_text t u
unfolding compare_text
compare_text_same [] [] u st = refl
compare_text_same [] (d ∷ t) u st = ground (arith, st)
compare_text_same (c ∷ s) [] u st = ground (arith, st)
compare_text_same (c ∷ s) (d ∷ t) [] st = refl
compare_text_same (c ∷ s) (d ∷ t) (e ∷ u) st = ground (arith, st, compare_text_same s t u)

compare_text-IsComparison : IsComparison compare_text
compare_text-IsComparison = record {
  swaps = compare_text-opposite;
  chains = compare_text_chain;
  agrees = compare_text_same;
}

-- what is not empty stands below what is
abbrev compare_blank : String → String → Sign
compare_blank a b =
    if a == "" then (if b == "" then same else above) else if b == "" then below else same

compare_blank-IsComparison : IsComparison compare_blank
compare_blank-IsComparison = record {
  swaps = λ a b. ground arith;
  chains = λ a b c ab bc. ground (arith, ab, bc);
  agrees = λ a b c ab. ground (arith, ab);
}

compare_pre_lem : (a b : String) → compare_pre a b ≡ then_by (compare_blank a b) (compare_text a b)
unfolding compare_pre
compare_pre_lem a b = ground arith

-- a comparison that agrees with another one everywhere
same-IsComparison :
    {A : Type 0} (cmp other : A → A → Sign)
    → ((a b : A) → cmp a b ≡ other a b)
    → IsComparison other
    → IsComparison cmp
same-IsComparison cmp other e good = record {
  swaps = λ a b. e b a ∙ good.swaps a b ∙ ap opposite (sym (e a b));
  chains = λ a b c ab bc. e a c ∙ good.chains a b c (sym (e a b) ∙ ab) (sym (e b c) ∙ bc);
  agrees = λ a b c ab. e a c ∙ good.agrees a b c (sym (e a b) ∙ ab) ∙ sym (e b c);
}

-- the comparison of what a function gives
compared_by :
    {A B : Type 0} (cmp : B → B → Sign) (f : A → B)
    → IsComparison cmp
    → IsComparison (λ a b. cmp (f a) (f b))
compared_by cmp f good = record {
  swaps = λ a b. good.swaps (f a) (f b);
  chains = λ a b c. good.chains (f a) (f b) (f c);
  agrees = λ a b c. good.agrees (f a) (f b) (f c);
}

compare_pre-IsComparison : IsComparison compare_pre
compare_pre-IsComparison =
    same-IsComparison compare_pre (λ a b. then_by (compare_blank a b) (compare_text a b))
      compare_pre_lem
      (then_by-IsComparison compare_blank compare_text compare_blank-IsComparison
        compare_text-IsComparison)

pub compare_parsed-IsComparison : IsComparison compare_parsed
unfolding compare_parsed
compare_parsed-IsComparison =
    then_by-IsComparison _ _ (compared_by compare_int (λ v. v.major) compare_int-IsComparison) (
      then_by-IsComparison _ _ (compared_by compare_int (λ v. v.minor) compare_int-IsComparison) (
        then_by-IsComparison _ _ (compared_by compare_int (λ v. v.patch) compare_int-IsComparison)
          (compared_by compare_pre (λ v. v.pre) compare_pre-IsComparison)))
