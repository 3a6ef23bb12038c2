-- ===== src/Json/Halts.antt =====
-- The loops of the grammar check in extension/remote/dstudio_json_tokens.h come to their end.
pub mod Fuel
use Prim.{Unit, tt}
use dstudio.Base.{
  ℕ, zero, suc, ◌+◌, ◌*◌, ◌≤◌, ◌<◌, ◌≡◌, ◌≢◌, refl, ap, ◌⊎◌, inl, inr, Bool, true, false, not, ◌&&◌,
  ◌||◌, List, [], ◌∷◌, ◌++◌, Str, codes, has_prefix, is_digit, ◌==◌, leb, ltb, length, arith,
  Bool-cases, Outcome, ok, err, ◌>>=◌, if◌then◌else◌, if-intro,
}
use dstudio.Json.{
  JsonError, Scan, StringMode, StringStep, after_hex, bad_first, closed, colon, continues, escaped,
  exponent_part, failed, ends_here, fraction_part, hex, integer_part, is_escape, is_space,
  is_xdigit, max_depth, member_key, opened, out_of_fuel, plain, separated, skip_digits, skip_bytes,
  skip_minus, skip_sign, some_digits, starts_with, string_end, string_goes, string_step,
  syntax_array, syntax_number, syntax_object, syntax_string, syntax_value, syntax_word, syntax_ws,
  too_deep, validate_complete, value_at, array_separator, object_separator,
}
use dstudio.Json.Lengths.{pieces_longer, spaces_longer, value_longer}
use dstudio.Json.Lexemes.{syntax_ws-split}
use dstudio.Json.Sound.{syntax_value_sound}
use dstudio.Json.Values.{member_key_sound}
use dstudio.Json.Tree.{pieces_before, value_before}

abbrev pub Halts {ℓ} : {A : Type ℓ} → Outcome JsonError A → Type ℓ
Halts o = o ≢ err out_of_fuel

pub >>=-Halts {ℓ κ} :
    {A : Type ℓ} {B : Type κ} (m : Outcome JsonError A) (f : A → Outcome JsonError B)
    → Halts m
    → ((a : A) → m ≡ ok a → Halts (f a))
    → Halts (m >>= f)
>>=-Halts (ok a) f h k = k a refl
>>=-Halts (err e) f h k = λ same. h (cc same)

pub string_goes-Halts :
    (s : StringStep) (p : Str) (next : StringMode → Scan)
    → s ≢ failed out_of_fuel
    → ((mode : StringMode) → Halts (next mode))
    → Halts (string_goes s p next)
string_goes-Halts closed p next fine go = λ e. cc
string_goes-Halts (failed e) p next fine go = λ same. fine (cc same)
string_goes-Halts (continues mode) p next fine go = go mode

pub string_step-fine : (mode : StringMode) (c : ℕ) → string_step mode c ≢ failed out_of_fuel
string_step-fine plain c = ground arith
string_step-fine escaped c = ground arith
string_step-fine (hex n) c = ground arith

pub syntax_string-Halts : (mode : StringMode) (s : Str) → Halts (syntax_string mode s)
unfolding syntax_string
syntax_string-Halts plain [] = λ e. cc
syntax_string-Halts escaped [] = λ e. cc
syntax_string-Halts (hex n) [] = λ e. cc
syntax_string-Halts mode (c ∷ p) =
    string_goes-Halts (string_step mode c) p _ (string_step-fine mode c)
      (λ next. syntax_string-Halts next p)

pub some_digits-Halts : (s : Str) → Halts (some_digits s)
unfolding some_digits
some_digits-Halts [] = λ e. cc
some_digits-Halts (c ∷ p) = ground arith

pub integer_part-Halts : (s : Str) → Halts (integer_part s)
unfolding integer_part
integer_part-Halts [] = λ e. cc
integer_part-Halts (c ∷ p) = ground arith

pub fraction_part-Halts : (s : Str) → Halts (fraction_part s)
unfolding fraction_part
fraction_part-Halts [] = λ e. cc
fraction_part-Halts (c ∷ p) =
    if-intro (λ (o : Scan). Halts o) (c == b'.') (some_digits p) (ok (c ∷ p))
      (λ _. some_digits-Halts p) (λ _ e. cc)

pub exponent_part-Halts : (s : Str) → Halts (exponent_part s)
unfolding exponent_part
exponent_part-Halts [] = λ e. cc
exponent_part-Halts (c ∷ p) =
    if-intro (λ (o : Scan). Halts o) (c == b'e' || c == b'E') (some_digits (skip_sign p))
      (ok (c ∷ p)) (λ _. some_digits-Halts (skip_sign p)) (λ _ e. cc)

pub syntax_number-Halts : (s : Str) → Halts (syntax_number s)
unfolding syntax_number
syntax_number-Halts s =
    >>=-Halts (integer_part (skip_minus s)) _ (integer_part-Halts (skip_minus s)) (λ i _.
      >>=-Halts (fraction_part i) exponent_part (fraction_part-Halts i)
        (λ f _. exponent_part-Halts f))

pub syntax_word-Halts : (s : Str) → Halts (syntax_word s)
unfolding syntax_word
syntax_word-Halts s = ground arith

pub colon-Halts : (s : Str) → Halts (colon s)
colon-Halts [] = λ e. cc
colon-Halts (c ∷ p) = ground arith

pub member_key-Halts : (s : Str) → Halts (member_key s)
unfolding member_key
member_key-Halts [] = λ e. cc
member_key-Halts (c ∷ p) = elim (Bool-cases (c == b'"')) [
  | inl quote ↦ rw quote (
      >>=-Halts (syntax_string plain p) (λ q. colon (syntax_ws q)) (syntax_string-Halts plain p)
        (λ q _. colon-Halts (syntax_ws q)))
  | inr n ↦ rw n (λ e. cc)
]

pub opened-Halts :
    (close : ℕ) (loop : Str → Scan) (s : Str) → Halts (loop s) → Halts (opened close loop s)
opened-Halts close loop [] h = h
opened-Halts close loop (c ∷ p) h =
    if-intro (λ (o : Scan). Halts o) (c == close) (ok p) (loop (c ∷ p)) (λ _ e. cc) (λ _. h)

pub syntax_ws-le : (s : Str) → length (syntax_ws s) ≤ length s
syntax_ws-le s =
    let (ws, _, e, _) = syntax_ws-split s in
    let split = ap length e in omega (arith, spaces_longer ws (syntax_ws s))

pub separated-Halts :
    (close : ℕ) (e : JsonError) (loop : Str → Scan) (s : Str)
    → e ≢ out_of_fuel
    → ((p : Str) → length p < length s → Halts (loop p))
    → Halts (separated close e loop s)
separated-Halts close e loop [] fine go = λ same. fine (cc same)
separated-Halts close e loop (c ∷ p) fine go = elim (Bool-cases (c == b',')) [
  | inl comma ↦ rw comma (go (syntax_ws p) (omega (arith, syntax_ws-le p)))
  | inr n ↦ rw n (
      if-intro (λ (o : Scan). Halts o) (c == close) (ok p) (err e) (λ _ x. cc)
        (λ _ same. fine (cc same)))
]
