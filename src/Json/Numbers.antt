-- ===== src/Json/Numbers.antt =====
-- Numbers in the grammar check of extension/remote/dstudio_json_tokens.h.
use dstudio.Base.{
  ◌≡◌, refl, ap, ◌∙◌, Bool, true, false, ◌&&◌, ◌||◌, [], ◌∷◌, ◌++◌, Str, ◌==◌, leb, arith,
  Bool-cases, inl, inr, ok, >>=-eq-ok,
}
use dstudio.Json.{
  skip_digits, some_digits, skip_minus, integer_part, fraction_part, skip_sign, exponent_part,
  syntax_number,
}
use dstudio.Json.Tree.{
  Integer, nought, nonzero, Fraction, no_fraction, fraction, Sign, unsigned, plus, minus, Exponent,
  no_exponent, exponent, Number, IsInteger, IsFraction, IsExponent, IsNumber, integer_before,
  fraction_before, sign_before, exponent_before, minus_before, number_before,
}
use dstudio.Json.Digits.{
  IsEnd, NoDigit, same, skip_digits-before, skip_digits-split, some_digits-before,
  some_digits_sound,
}

integer_part_sound :
    (s rest : Str)
    → integer_part s ≡ ok rest
    → (i : Integer) × IsInteger i × (s ≡ integer_before i rest)
unfolding integer_part
integer_part_sound [] rest h = cc
integer_part_sound (c ∷ p) rest h = elim (Bool-cases (c == b'0')) [
  | inl z ↦
      let left : p ≡ rest = ground arith in
      (nought, tt, ap (λ d. d ∷ p) (same c b'0' z) ∙ ap (λ t. b'0' ∷ t) left)
  | inr n ↦
      let (ds, digits, e) = skip_digits-split p in
      let first : (leb b'1' c && leb c b'9') ≡ true = ground arith in
      let left : skip_digits p ≡ rest = ground arith in
      (nonzero c ds, (first, digits), ap (λ t. c ∷ t) (e ∙ ap (λ t. ds ++ t) left))
]

integer_part-before :
    (i : Integer) (rest : Str)
    → IsInteger i
    → NoDigit rest
    → integer_part (integer_before i rest) ≡ ok rest
unfolding integer_part
integer_part-before nought rest good stop = refl
integer_part-before (nonzero c ds) rest good stop =
    let first = good.0 in
    let not_zero : (c == b'0') ≡ false = ground arith in
    rw (not_zero, first) (ap ok (skip_digits-before ds rest good.1 stop))

fraction_part_sound :
    (s rest : Str)
    → fraction_part s ≡ ok rest
    → (f : Fraction) × IsFraction f × (s ≡ fraction_before f rest)
unfolding fraction_part
fraction_part_sound [] rest h = (no_fraction, tt, ground arith)
fraction_part_sound (c ∷ p) rest h = elim (Bool-cases (c == b'.')) [
  | inl dot ↦
      let inner : some_digits p ≡ ok rest = ground arith in
      let (d, ds, digit, digits, e) = some_digits_sound p rest inner in
      (fraction d ds, (digit, digits), ap (λ x. x ∷ p) (same c b'.' dot) ∙ ap (λ t. b'.' ∷ t) e)
  | inr n ↦ (no_fraction, tt, ground arith)
]

-- What may follow a fraction that is absent, or an exponent that is.
no_fraction_before : (s : Str) → IsEnd s → fraction_part s ≡ ok s
unfolding fraction_part
no_fraction_before [] stop = refl
no_fraction_before (c ∷ p) stop = ground arith

no_exponent_before : (s : Str) → IsEnd s → exponent_part s ≡ ok s
unfolding exponent_part
no_exponent_before [] stop = refl
no_exponent_before (c ∷ p) stop = ground arith

IsEnd-NoDigit : (s : Str) → IsEnd s → NoDigit s
IsEnd-NoDigit [] stop = tt
IsEnd-NoDigit (c ∷ p) stop = ground arith

exponent_before-NoDigit :
    (x : Exponent) (rest : Str) → IsExponent x → IsEnd rest → NoDigit (exponent_before x rest)
exponent_before-NoDigit no_exponent rest good stop = IsEnd-NoDigit rest stop
exponent_before-NoDigit (exponent e sign c ds) rest good stop = let mark = good.0 in ground arith

fraction_before-NoDigit :
    (f : Fraction) (rest : Str) → NoDigit rest → NoDigit (fraction_before f rest)
fraction_before-NoDigit no_fraction rest stop = stop
fraction_before-NoDigit (fraction c ds) rest stop = refl

fraction_part-before :
    (f : Fraction) (x : Exponent) (rest : Str)
    → IsFraction f
    → IsExponent x
    → IsEnd rest
    → fraction_part (fraction_before f (exponent_before x rest)) ≡ ok (exponent_before x rest)
unfolding fraction_part
fraction_part-before (fraction c ds) x rest good ready stop =
    some_digits-before c ds (exponent_before x rest) good.0 good.1
      (exponent_before-NoDigit x rest ready stop)
fraction_part-before no_fraction no_exponent rest good ready stop = no_fraction_before rest stop
fraction_part-before no_fraction (exponent e sign c ds) rest good ready stop =
    let mark = ready.0 in ground arith

skip_sign-split : (q : Str) → (sign : Sign) × (q ≡ sign_before sign (skip_sign q))
unfolding skip_sign
skip_sign-split [] = (unsigned, refl)
skip_sign-split (c ∷ q) = elim (Bool-cases (c == b'+')) [
  | inl p ↦ (plus, rw p (ap (λ d. d ∷ q) (same c b'+' p)))
  | inr n ↦ elim (Bool-cases (c == b'-')) [
    | inl m ↦ (minus, rw (n, m) (ap (λ d. d ∷ q) (same c b'-' m)))
    | inr k ↦ (unsigned, rw (n, k) refl)
  ]
]

exponent_part_sound :
    (s rest : Str)
    → exponent_part s ≡ ok rest
    → (x : Exponent) × IsExponent x × (s ≡ exponent_before x rest)
unfolding exponent_part
exponent_part_sound [] rest h = (no_exponent, tt, ground arith)
exponent_part_sound (c ∷ p) rest h = elim (Bool-cases (c == b'e' || c == b'E')) [
  | inl mark ↦
      let inner : some_digits (skip_sign p) ≡ ok rest = ground arith in
      let (d, ds, digit, digits, e) = some_digits_sound (skip_sign p) rest inner in
      let (sign, split) = skip_sign-split p in
      (
        exponent c sign d ds,
        (mark, digit, digits),
        ap (λ t. c ∷ t) (split ∙ ap (sign_before sign) e),
      )
  | inr n ↦ (no_exponent, tt, ground arith)
]

exponent_part-before :
    (x : Exponent) (rest : Str)
    → IsExponent x
    → IsEnd rest
    → exponent_part (exponent_before x rest) ≡ ok rest
unfolding exponent_part skip_sign
exponent_part-before no_exponent rest good stop = no_exponent_before rest stop
exponent_part-before (exponent e plus c ds) rest good stop =
    rw good.0 (some_digits-before c ds rest good.1 good.2 (IsEnd-NoDigit rest stop))
exponent_part-before (exponent e minus c ds) rest good stop =
    rw good.0 (some_digits-before c ds rest good.1 good.2 (IsEnd-NoDigit rest stop))
exponent_part-before (exponent e unsigned c ds) rest good stop =
    let digit = good.1 in
    let no_sign : (c == b'+' || c == b'-') ≡ false = ground arith in
    rw (good.0, no_sign) (some_digits-before c ds rest good.1 good.2 (IsEnd-NoDigit rest stop))

skip_minus-split : (s : Str) → (b : Bool) × (s ≡ minus_before b (skip_minus s))
unfolding skip_minus
skip_minus-split [] = (false, refl)
skip_minus-split (c ∷ p) = elim (Bool-cases (c == b'-')) [
  | inl dash ↦ (true, rw dash (ap (λ d. d ∷ p) (same c b'-' dash)))
  | inr n ↦ (false, rw n refl)
]

pub syntax_number_sound :
    (s rest : Str)
    → syntax_number s ≡ ok rest
    → (n : Number) × IsNumber n × (s ≡ number_before n rest)
unfolding syntax_number
syntax_number_sound s rest h =
    let (i, hi, h') = >>=-eq-ok (integer_part (skip_minus s)) _ h in
    let (f, hf, hx) = >>=-eq-ok (fraction_part i) exponent_part h' in
    let (negative, es) = skip_minus-split s in
    let (int, good_int, ei) = integer_part_sound (skip_minus s) i hi in
    let (frac, good_frac, ef) = fraction_part_sound i f hf in
    let (exp, good_exp, ex) = exponent_part_sound f rest hx in
    (
      record { negative = negative; int = int; frac = frac; exp = exp },
      (good_int, good_frac, good_exp),
      es
          ∙ ap (minus_before negative)
              (ei ∙ ap (integer_before int) (ef ∙ ap (fraction_before frac) ex)),
    )

skip_minus-before :
    (b : Bool) (i : Integer) (rest : Str)
    → IsInteger i
    → skip_minus (minus_before b (integer_before i rest)) ≡ integer_before i rest
unfolding skip_minus
skip_minus-before true i rest good = refl
skip_minus-before false nought rest good = refl
skip_minus-before false (nonzero c ds) rest good = let first = good.0 in ground arith

pub syntax_number-before :
    (n : Number) (rest : Str)
    → IsNumber n
    → IsEnd rest
    → syntax_number (number_before n rest) ≡ ok rest
unfolding syntax_number
syntax_number-before n rest good stop =
    let tail = exponent_before n.exp rest in
    let later = fraction_before n.frac tail in
    let calm =
      fraction_before-NoDigit n.frac tail (exponent_before-NoDigit n.exp rest good.2 stop) in
    rw (skip_minus-before n.negative n.int later good.0) (
      rw (integer_part-before n.int later good.0 calm) (
        rw (fraction_part-before n.frac n.exp rest good.1 good.2 stop)
          (exponent_part-before n.exp rest good.2 stop)))
