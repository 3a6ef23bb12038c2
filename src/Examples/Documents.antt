-- ===== src/Examples/Documents.antt =====
-- The theorems about JSON at concrete texts.
use Prim.{tt}
use dstudio.Base.{has_prefix, ◌≡◌, ◌≢◌, ◌↔◌, ◌++◌, refl, [], ◌∷◌, Str, codes, some, ok, err, arith}
use dstudio.Json.{
  exponent_part, ends_here, fraction_part, integer_part, member_key, out_of_fuel, plain,
  skip_digits, skip_minus, skip_sign, some_digits, starts_with, syntax_number, syntax_string,
  syntax_value, syntax_word, syntax_ws, validate_complete, value_at,
}
use dstudio.Json.Exact.{IsDocument, validate_complete_iff}
use dstudio.Json.Halts.Fuel.{validate_complete-Halts}
use dstudio.Json.Strings.{put_escaped, token_string}
use dstudio.Json.Strings.RoundTrip.{put_escaped-round_trip}

abbrev document : Str
document = codes " {\"a\": [1.5e-3, {}, null], \"b\\u00e9\": \"\\n\"} "

document_accepted : validate_complete b'{' document ≡ ok tt
unfolding validate_complete starts_with syntax_ws syntax_value value_at member_key syntax_string
    syntax_number integer_part skip_minus fraction_part skip_digits some_digits exponent_part
    skip_sign syntax_word has_prefix ends_here
document_accepted = refl

validate_complete_iff_example : (validate_complete b'{' document ≡ ok tt) ↔ IsDocument b'{' document
validate_complete_iff_example = validate_complete_iff b'{' document

validate_complete-Halts_example : validate_complete 0 (codes "[[[1,") ≢ err out_of_fuel
validate_complete-Halts_example = validate_complete-Halts 0 (codes "[[[1,")

abbrev line : Str
line = codes "say \"hi\"" ++ 0x0a ∷ 0x01 ∷ []

put_escaped-round_trip_example :
    (raw : Str) × (put_escaped line ≡ b'"' ∷ (raw ++ b'"' ∷ []))
    × (syntax_string plain (raw ++ b'"' ∷ codes "}") ≡ ok (codes "}"))
    × (token_string 64 raw ≡ some line)
put_escaped-round_trip_example =
    put_escaped-round_trip line (codes "}") 64 (omega arith) (omega arith)
