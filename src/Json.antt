-- ===== src/Json.antt =====
-- The grammar check of extension/remote/dstudio_json_tokens.h: `dtg_json_validate_complete` and
-- the `dtg_json_syntax_…` functions. A pointer is the text from there to the end, so `p >= end`
-- is `[]`; no byte of a C string is 0. `out_of_fuel` is the model's own, and never comes up.
pub mod Tree
pub mod Lexemes
pub mod Digits
pub mod Numbers
pub mod Elements
pub mod Values
pub mod Sound
pub mod Lengths
pub mod Steps
pub mod Complete
pub mod Exact
pub mod Halts
pub mod Strings
use Prim.{Unit, tt}
use dstudio.Base.{
  ℕ, zero, suc, ◌+◌, ◌*◌, Bool, true, false, not, ◌&&◌, ◌||◌, List, [], ◌∷◌, Str, codes, has_prefix,
  is_digit, if◌then◌else◌, ◌==◌, ltb, leb, length, Outcome, ok, err, ◌>>=◌,
}

pub data JsonError : Type 0 where
  control_character unterminated_escape bad_unicode_escape bad_escape unterminated_string :
      JsonError
  bad_number array_separator object_key object_colon object_separator : JsonError
  too_deep expected_value bad_value bad_first trailing_data out_of_fuel : JsonError

abbrev pub Scan : Type 0
Scan = Outcome JsonError Str

-- `isspace` and `isxdigit` in the "C" locale.
abbrev pub is_space : ℕ → Bool
is_space c = c == 0x20 || leb 0x09 c && leb c 0x0d

abbrev pub is_xdigit : ℕ → Bool
is_xdigit c = is_digit c || leb b'a' c && leb c b'f' || leb b'A' c && leb c b'F'

unfoldable pub syntax_ws : Str → Str
syntax_ws [] = []
syntax_ws (c ∷ p) = if is_space c then syntax_ws p else c ∷ p

-- `strchr("\"/\\bfnrt", c)`
abbrev pub is_escape : ℕ → Bool
is_escape c =
    c == b'"'
    || c == b'/'
    || c == b'\\'
    || c == b'b'
    || c == b'f'
    || c == b'n'
    || c == b'r'
    || c == b't'

-- Where the loop of `dtg_json_syntax_string` stands: between characters, behind a backslash, or
-- with so many hexadecimal digits to come.
pub data StringMode : Type 0 where
  plain escaped : StringMode
  hex : ℕ → StringMode

pub data StringStep : Type 0 where
  closed : StringStep
  failed : JsonError → StringStep
  continues : StringMode → StringStep

abbrev pub after_hex : ℕ → StringMode
after_hex zero = plain
after_hex (suc n) = hex n

abbrev pub string_step : StringMode → ℕ → StringStep
string_step plain c =
    if c == b'"'
    then closed
    else if ltb c 0x20
    then failed control_character
    else if c == b'\\'
    then continues escaped
    else continues plain
string_step escaped c =
    if c == b'u'
    then continues (hex 3)
    else if is_escape c
    then continues plain
    else failed bad_escape
string_step (hex n) c = if is_xdigit c then continues (after_hex n) else failed bad_unicode_escape

abbrev pub string_end : StringMode → JsonError
string_end plain = unterminated_string
string_end escaped = unterminated_escape
string_end (hex n) = bad_unicode_escape

abbrev pub string_goes : StringStep → Str → (StringMode → Scan) → Scan
string_goes closed p next = ok p
string_goes (failed e) p next = err e
string_goes (continues mode) p next = next mode

-- Behind the opening quote.
unfoldable pub syntax_string : StringMode → Str → Scan
syntax_string mode [] = err (string_end mode)
syntax_string mode (c ∷ p) = string_goes (string_step mode c) p (λ next. syntax_string next p)

unfoldable pub skip_digits : Str → Str
skip_digits [] = []
skip_digits (c ∷ p) = if is_digit c then skip_digits p else c ∷ p

unfoldable pub some_digits : Str → Scan
some_digits [] = err bad_number
some_digits (c ∷ p) = if is_digit c then ok (skip_digits p) else err bad_number

unfoldable pub skip_minus : Str → Str
skip_minus [] = []
skip_minus (c ∷ p) = if c == b'-' then p else c ∷ p

unfoldable pub integer_part : Str → Scan
integer_part [] = err bad_number
integer_part (c ∷ p) =
    if c == b'0'
    then ok p
    else if leb b'1' c && leb c b'9'
    then ok (skip_digits p)
    else err bad_number

unfoldable pub fraction_part : Str → Scan
fraction_part [] = ok []
fraction_part (c ∷ p) = if c == b'.' then some_digits p else ok (c ∷ p)

unfoldable pub skip_sign : Str → Str
skip_sign [] = []
skip_sign (c ∷ p) = if c == b'+' || c == b'-' then p else c ∷ p

unfoldable pub exponent_part : Str → Scan
exponent_part [] = ok []
exponent_part (c ∷ p) = if c == b'e' || c == b'E' then some_digits (skip_sign p) else ok (c ∷ p)

unfoldable pub syntax_number : Str → Scan
syntax_number p = do i ← integer_part (skip_minus p); f ← fraction_part i; exponent_part f

abbrev pub skip_bytes : ℕ → Str → Str
skip_bytes zero p = p
skip_bytes (suc n) [] = []
skip_bytes (suc n) (c ∷ p) = skip_bytes n p

unfoldable pub syntax_word : Str → Scan
syntax_word p =
    if has_prefix p (codes "true")
    then ok (skip_bytes 4 p)
    else if has_prefix p (codes "false")
    then ok (skip_bytes 5 p)
    else if has_prefix p (codes "null")
    then ok (skip_bytes 4 p)
    else err bad_value

-- An opened array or object is empty, or goes on with the loop.
abbrev pub opened : ℕ → (Str → Scan) → Str → Scan
opened close loop [] = loop []
opened close loop (c ∷ p) = if c == close then ok p else loop (c ∷ p)

abbrev pub max_depth : ℕ
max_depth = 64

unfoldable pub value_at : (Str → Scan) → (Str → Scan) → Str → Scan
value_at items members [] = err expected_value
value_at items members (c ∷ p) =
    if c == b'"'
    then syntax_string plain p
    else if c == b'{'
    then opened b'}' members (syntax_ws p)
    else if c == b'['
    then opened b']' items (syntax_ws p)
    else if c == b'-' || is_digit c
    then syntax_number (c ∷ p)
    else syntax_word (c ∷ p)

-- Behind an element: a comma and the next, or the end.
abbrev pub separated : ℕ → JsonError → (Str → Scan) → Str → Scan
separated close e loop [] = err e
separated close e loop (c ∷ p) =
    if c == b',' then loop (syntax_ws p) else if c == close then ok p else err e

abbrev pub colon : Str → Scan
colon [] = err object_colon
colon (c ∷ p) = if c == b':' then ok p else err object_colon

unfoldable pub member_key : Str → Scan
member_key [] = err object_key
member_key (c ∷ p) =
    if c == b'"' then syntax_string plain p >>= (λ q. colon (syntax_ws q)) else err object_key

-- `dtg_json_syntax_value`, and the loops of `dtg_json_syntax_array` and `dtg_json_syntax_object`.
unfoldable mutual
  pub syntax_value : ℕ → ℕ → Str → Scan
  syntax_value zero depth p = err out_of_fuel
  syntax_value (suc fuel) depth p =
      if ltb max_depth depth
      then err too_deep
      else value_at (syntax_array fuel depth) (syntax_object fuel depth) (syntax_ws p)

  pub syntax_array : ℕ → ℕ → Str → Scan
  syntax_array zero depth p = err out_of_fuel
  syntax_array (suc fuel) depth p = syntax_value fuel (suc depth) p >>= λ q.
      separated b']' array_separator (syntax_array fuel depth) (syntax_ws q)

  pub syntax_object : ℕ → ℕ → Str → Scan
  syntax_object zero depth p = err out_of_fuel
  syntax_object (suc fuel) depth p = member_key p >>= λ k. syntax_value fuel (suc depth) k >>= λ q.
      separated b'}' object_separator (syntax_object fuel depth) (syntax_ws q)

unfoldable pub ends_here : Str → Outcome JsonError (Unit {0})
ends_here [] = ok tt
ends_here (c ∷ p) = err trailing_data

unfoldable pub starts_with : ℕ → Str → Bool
starts_with first [] = false
starts_with first (c ∷ p) = c == first

-- `required_first` is 0 where any value will do.
unfoldable pub validate_complete : ℕ → Str → Outcome JsonError (Unit {0})
validate_complete required_first json =
    let p = syntax_ws json in
    if not (required_first == 0) && not (starts_with required_first p)
    then err bad_first
    else syntax_value (suc (2 * length p)) 0 p >>= λ q. ends_here (syntax_ws q)
