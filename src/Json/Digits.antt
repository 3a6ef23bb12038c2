-- ===== src/Json/Digits.antt =====
-- Runs of digits in the numbers of extension/remote/dstudio_json_tokens.h.
use dstudio.Base.{
  ℕ, ◌≡◌, refl, ap, ◌∙◌, true, false, ◌||◌, [], ◌∷◌, ◌++◌, Str, ◌==◌, is_digit, arith, Bool-cases,
  inl, inr, ok,
}
use dstudio.Json.{skip_digits, some_digits}
use dstudio.Json.Tree.{AllDigits}

-- A text that does not go on with a digit; or with any part of a number.
abbrev pub NoDigit : Str → Type 0
NoDigit [] = Unit
NoDigit (c ∷ p) = is_digit c ≡ false

abbrev pub IsEnd : Str → Type 0
IsEnd [] = Unit
IsEnd (c ∷ p) = (is_digit c || c == b'.' || c == b'e' || c == b'E') ≡ false

pub skip_digits-split : (s : Str) → (ds : Str) × AllDigits ds × (s ≡ ds ++ skip_digits s)
unfolding skip_digits
skip_digits-split [] = ([], tt, refl)
skip_digits-split (c ∷ p) = elim (Bool-cases (is_digit c)) [
  | inl digit ↦
      let (ds, digits, e) = skip_digits-split p in
      (c ∷ ds, (digit, digits), rw digit (ap (λ t. c ∷ t) e))
  | inr other ↦ ([], tt, rw other refl)
]

pub skip_digits-before :
    (ds rest : Str) → AllDigits ds → NoDigit rest → skip_digits (ds ++ rest) ≡ rest
unfolding skip_digits
skip_digits-before [] [] h stop = refl
skip_digits-before [] (c ∷ p) h stop = rw stop refl
skip_digits-before (c ∷ ds) rest h stop = rw h.0 (skip_digits-before ds rest h.1 stop)

pub same : (c d : ℕ) → (c == d) ≡ true → c ≡ d
same c d h = ground arith

pub some_digits_sound :
    (s rest : Str)
    → some_digits s ≡ ok rest
    → (c : ℕ) × (ds : Str) × (is_digit c ≡ true) × AllDigits ds × (s ≡ c ∷ (ds ++ rest))
unfolding some_digits
some_digits_sound [] rest h = cc
some_digits_sound (c ∷ p) rest h =
    let (ds, digits, e) = skip_digits-split p in
    let digit : is_digit c ≡ true = ground arith in
    let left : skip_digits p ≡ rest = ground arith in
    (c, ds, digit, digits, ap (λ t. c ∷ t) (e ∙ ap (λ t. ds ++ t) left))

pub some_digits-before :
    (c : ℕ) (ds rest : Str)
    → is_digit c ≡ true
    → AllDigits ds
    → NoDigit rest
    → some_digits (c ∷ (ds ++ rest)) ≡ ok rest
unfolding some_digits
some_digits-before c ds rest digit digits stop =
    rw digit (ap ok (skip_digits-before ds rest digits stop))
