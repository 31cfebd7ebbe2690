-- ===== src/Prelude/Decimal.antt =====
-- strconv.Itoa and strconv.Atoi on 64-bit integers.
use Prim.Native.Nat.{ℕ, zero, suc, ◌+◌, ◌-◌, ◌*◌, ◌/◌, ◌%◌, ◌<◌}
use Prim.Native.Char.{Char, code}
use Prim.Native.String.{String, [], ◌∷◌}
use mathlib.Core.Path.{◌≡◌, refl, ap, sym, ◌∙◌}
use mathlib.Core.Logic.{inl, inr}
use mathlib.Core.Bool.{true, false, not, ◌&&◌}
use mathlib.Core.Option.{Option, none, some}
use native.Mathlib.Omega.{arith}
use package.serpent_seek.Prelude.Tests.{ltb, leb, eqb, if◌then◌else◌, Bool-cases}
use package.serpent_seek.Prelude.Int.{ℤ, pos, negsuc}
use package.serpent_seek.Prelude.Strings.{all_codes, is_space, trim_space, trim_space_plain}

digit : ℕ → Char
digit n =
    if eqb n 0
    then "0"
    else if eqb n 1
    then "1"
    else if eqb n 2
    then "2"
    else if eqb n 3
    then "3"
    else if eqb n 4
    then "4"
    else if eqb n 5
    then "5"
    else if eqb n 6
    then "6"
    else if eqb n 7
    then "7"
    else if eqb n 8
    then "8"
    else "9"

-- the decimal digits of a number in front of a text; each round divides by ten
digits : ℕ → ℕ → String → String
digits zero n out = out
digits (suc fuel) n out =
    let rest = digits fuel (n / 10) (digit (n % 10) ∷ out) in
    if ltb n 10 then digit n ∷ out else rest

-- twenty rounds write every number below 10 ^ 20, and so every 64-bit one
abbrev rounds : ℕ
rounds = 20

unfoldable pub itoa : ℤ → String
unfolding digits digit
itoa (pos n) = digits rounds n ""
itoa (negsuc n) = "-" ∷ digits rounds (n + 1) ""

-- the number that starts with the digits read so far
scan : String → ℕ → Option ℕ
scan [] n = some n
scan (c ∷ s) n =
    let rest = scan s (n * 10 + (code c - 48)) in
    if leb 48 (code c) && leb (code c) 57 then rest else none

unsigned : String → Option ℕ
unsigned [] = none
unsigned (c ∷ s) = scan (c ∷ s) 0

-- 2 ^ 63
abbrev pub int_bound : ℕ
int_bound = 9_223_372_036_854_775_808

positive : Option ℕ → Option ℤ
positive none = none
positive (some n) = if ltb n int_bound then some (pos n) else none

negative : Option ℕ → Option ℤ
negative none = none
negative (some zero) = some (pos 0)
negative (some (suc n)) = if ltb n int_bound then some (negsuc n) else none

unfoldable pub atoi : String → Option ℤ
unfolding scan unsigned positive negative
atoi [] = none
atoi (c ∷ s) =
    if eqb (code c) 45
    then negative (unsigned s)
    else if eqb (code c) 43
    then positive (unsigned s)
    else positive (unsigned (c ∷ s))

tens : ℕ → ℕ
tens zero = 1
tens (suc n) = 10 * tens n

code-digit : (n : ℕ) → n < 10 → code (digit n) ≡ 48 + n
unfolding digit
code-digit zero h = refl
code-digit (suc zero) h = refl
code-digit (suc (suc zero)) h = refl
code-digit (suc (suc (suc zero))) h = refl
code-digit (suc (suc (suc (suc zero)))) h = refl
code-digit (suc (suc (suc (suc (suc zero))))) h = refl
code-digit (suc (suc (suc (suc (suc (suc zero)))))) h = refl
code-digit (suc (suc (suc (suc (suc (suc (suc zero))))))) h = refl
code-digit (suc (suc (suc (suc (suc (suc (suc (suc zero)))))))) h = refl
code-digit (suc (suc (suc (suc (suc (suc (suc (suc (suc zero))))))))) h = refl
code-digit (suc (suc (suc (suc (suc (suc (suc (suc (suc (suc n)))))))))) h = absurd (omega arith)

scan-digit : (n d : ℕ) (s : String) → d < 10 → scan (digit d ∷ s) n ≡ scan s (n * 10 + d)
unfolding scan
scan-digit n d s h =
    let value = code-digit d h in
    let shifted : n * 10 + (code (digit d) - 48) ≡ n * 10 + d = omega (arith, value) in
    ground (arith, value, shifted)

scan-digits :
    (fuel n : ℕ) (out : String)
    → n < tens (suc fuel)
    → scan (digits (suc fuel) n out) 0 ≡ scan out n
unfolding digits tens
scan-digits zero n out h =
    let small : ltb n 10 ≡ true = ground (arith, h) in
    let value : 0 * 10 + n ≡ n = omega arith in
    rw small (scan-digit 0 n out (omega arith) ∙ ap (λ m. scan out m) value)
scan-digits (suc fuel) n out h = elim (Bool-cases (ltb n 10)) [
  | inl small ↦
      let value : 0 * 10 + n ≡ n = omega arith in
      rw small (scan-digit 0 n out (ground (arith, small)) ∙ ap (λ m. scan out m) value)
  | inr large ↦
      let value : n / 10 * 10 + n % 10 ≡ n = omega arith in
      rw large (
        scan-digits fuel (n / 10) (digit (n % 10) ∷ out) (omega arith)
        ∙ scan-digit (n / 10) (n % 10) out (omega arith)
        ∙ ap (λ m. scan out m) value)
]

digits_head :
    (fuel n : ℕ) (out : String)
    → (m : ℕ) × (rest : String) × (m < 10) × (digits (suc fuel) n out ≡ digit m ∷ rest)
unfolding digits
digits_head zero n out = elim (Bool-cases (ltb n 10)) [
  | inl small ↦ (n, out, ground (arith, small), rw small refl)
  | inr large ↦ (n % 10, out, omega arith, rw large refl)
]
digits_head (suc fuel) n out = elim (Bool-cases (ltb n 10)) [
  | inl small ↦ (n, out, ground (arith, small), rw small refl)
  | inr large ↦
      let (m, rest, low, e) = digits_head fuel (n / 10) (digit (n % 10) ∷ out) in
      (m, rest, low, rw large e)
]

scan_all : (n : ℕ) → n < tens 20 → unsigned (digits 20 n "") ≡ some n
unfolding scan unsigned
scan_all n h =
    let (m, rest, low, e) = digits_head 19 n "" in
    ap unsigned e ∙ sym (ap (λ s. scan s 0) e) ∙ scan-digits 19 n "" h

digit_unsigned :
    (m : ℕ) → m < 10 → (eqb (code (digit m)) 45 ≡ false) × (eqb (code (digit m)) 43 ≡ false)
digit_unsigned m h = let value = code-digit m h in ground (arith, value)

-- Atoi reads back what Itoa has written of a 64-bit integer.
pub atoi-itoa_pos : (n : ℕ) → n < int_bound → atoi (itoa (pos n)) ≡ some (pos n)
unfolding atoi itoa tens positive
atoi-itoa_pos n h =
    let (m, rest, low, e) = digits_head 19 n "" in
    let (no_minus, no_plus) = digit_unsigned m low in
    let plain : atoi (digit m ∷ rest) ≡ positive (unsigned (digit m ∷ rest)) =
      rw (no_minus, no_plus) refl in
    ap atoi e
    ∙ plain
    ∙ ap (λ s. positive (unsigned s)) (sym e)
    ∙ ap positive (scan_all n (omega arith))
    ∙ ground (arith, h)

pub atoi-itoa_neg : (n : ℕ) → n < int_bound → atoi (itoa (negsuc n)) ≡ some (negsuc n)
unfolding atoi itoa tens negative
atoi-itoa_neg n h =
    let e : n + 1 ≡ suc n = omega arith in
    ap negative (scan_all (n + 1) (omega arith) ∙ ap some e) ∙ ground (arith, h)

-- the 64-bit integers
abbrev pub IsInt : ℤ → Type 0
IsInt (pos n) = n < int_bound
IsInt (negsuc n) = n < int_bound

pub atoi-itoa : (z : ℤ) → IsInt z → atoi (itoa z) ≡ some z
atoi-itoa (pos n) h = atoi-itoa_pos n h
atoi-itoa (negsuc n) h = atoi-itoa_neg n h

digit_plain : (m : ℕ) → m < 10 → is_space (code (digit m)) ≡ false
unfolding is_space
digit_plain m h = let value = code-digit m h in ground (arith, value, h)

digits_plain :
    (fuel n : ℕ) (out : String)
    → all_codes (λ c. not (is_space c)) out ≡ true
    → all_codes (λ c. not (is_space c)) (digits fuel n out) ≡ true
unfolding digits all_codes
digits_plain zero n out h = h
digits_plain (suc fuel) n out h = elim (Bool-cases (ltb n 10)) [
  | inl small ↦ let plain = digit_plain n (ground (arith, small)) in rw (small, plain) h
  | inr large ↦
      let plain = digit_plain (n % 10) (omega arith) in
      rw large (digits_plain fuel (n / 10) (digit (n % 10) ∷ out) (rw plain h))
]

pub trim_space-itoa : (z : ℤ) → trim_space (itoa z) ≡ itoa z
unfolding itoa all_codes is_space
trim_space-itoa (pos n) = trim_space_plain (itoa (pos n)) (digits_plain 20 n "" refl)
trim_space-itoa (negsuc n) = trim_space_plain (itoa (negsuc n)) (digits_plain 20 (n + 1) "" refl)
