-- ===== src/Json/Halts/Fuel.antt =====
-- The fuel of `dtg_json_validate_complete` in extension/remote/dstudio_json_tokens.h is enough.
use Prim.{Unit}
use dstudio.Base.{
  ℕ, zero, suc, ◌*◌, ◌<◌, ◌≡◌, ◌≢◌, ap, not, ◌&&◌, ◌||◌, [], ◌∷◌, ◌++◌, Str, is_digit, ◌==◌, ltb,
  length, arith, Outcome, ok, err, if-intro,
}
use dstudio.Json.{
  JsonError, Scan, bad_first, ends_here, max_depth, member_key, opened, out_of_fuel, plain,
  starts_with, syntax_array, syntax_number, syntax_object, syntax_string, syntax_value, syntax_word,
  syntax_ws, too_deep, validate_complete, value_at, array_separator, object_separator,
}
use dstudio.Json.Lengths.{pieces_longer, spaces_longer, value_longer}
use dstudio.Json.Sound.{syntax_value_sound}
use dstudio.Json.Values.{member_key_sound}
use dstudio.Json.Tree.{value_before}
use dstudio.Json.Halts.{
  >>=-Halts, Halts, member_key-Halts, opened-Halts, separated-Halts, syntax_number-Halts,
  syntax_string-Halts, syntax_word-Halts, syntax_ws-le,
}

value_at-Halts :
    (items members : Str → Scan) (s : Str)
    → ((p : Str) → length p < length s → Halts (items p))
    → ((p : Str) → length p < length s → Halts (members p))
    → Halts (value_at items members s)
unfolding value_at
value_at-Halts items members [] hi hm = λ e. cc
value_at-Halts items members (c ∷ p) hi hm =
    let shorter : length (syntax_ws p) < length (c ∷ p) = omega (arith, syntax_ws-le p) in
    if-intro (λ (o : Scan). Halts o) (c == b'"') (syntax_string plain p) _
      (λ _. syntax_string-Halts plain p)
      (λ _.
        if-intro (λ (o : Scan). Halts o) (c == b'{') (opened b'}' members (syntax_ws p)) _
          (λ _. opened-Halts b'}' members (syntax_ws p) (hm (syntax_ws p) shorter))
          (λ _.
            if-intro (λ (o : Scan). Halts o) (c == b'[') (opened b']' items (syntax_ws p)) _
              (λ _. opened-Halts b']' items (syntax_ws p) (hi (syntax_ws p) shorter))
              (λ _.
                if-intro (λ (o : Scan). Halts o) (c == b'-' || is_digit c) (syntax_number (c ∷ p))
                  (syntax_word (c ∷ p)) (λ _. syntax_number-Halts (c ∷ p))
                  (λ _. syntax_word-Halts (c ∷ p)))))

-- A value, and a key with its colon, take at least a byte.
value_shorter :
    (fuel depth : ℕ) (p q : Str) → syntax_value fuel depth p ≡ ok q → length q < length p
value_shorter fuel depth p q h =
    let (ws, v, _, _, e) = syntax_value_sound fuel depth p q h in
    let split = ap length e in
    let longer = value_longer v q in omega (arith, spaces_longer ws (value_before v q))

key_shorter : (p k : Str) → member_key p ≡ ok k → length k < length p
key_shorter p k h =
    let (key, b, _, _, e) = member_key_sound p k h in
    let split = ap length e in
    let gap = spaces_longer b (b':' ∷ k) in omega (arith, pieces_longer key (b ++ b':' ∷ k))

mutual
  unfolding syntax_value

  syntax_value-Halts :
      (fuel depth : ℕ) (p : Str) → 2 * length p < fuel → Halts (syntax_value fuel depth p)
  syntax_value-Halts zero depth p enough = absurd (omega arith)
  syntax_value-Halts (suc fuel) depth p enough =
      let less = syntax_ws-le p in
      if-intro (λ (o : Scan). Halts o) (ltb max_depth depth) (err too_deep) _ (λ _ e. cc)
        (λ _.
          value_at-Halts (syntax_array fuel depth) (syntax_object fuel depth) (syntax_ws p)
            (λ q shorter. syntax_array-Halts fuel depth q (omega arith))
            (λ q shorter. syntax_object-Halts fuel depth q (omega arith)))

  syntax_array-Halts :
      (fuel depth : ℕ) (p : Str) → suc (2 * length p) < fuel → Halts (syntax_array fuel depth p)
  syntax_array-Halts zero depth p enough = absurd (omega arith)
  syntax_array-Halts (suc fuel) depth p enough =
      >>=-Halts (syntax_value fuel (suc depth) p) _
        (syntax_value-Halts fuel (suc depth) p (omega arith))
        (λ q h.
          let less = value_shorter fuel (suc depth) p q h in
          let blank = syntax_ws-le q in
          separated-Halts b']' array_separator (syntax_array fuel depth) (syntax_ws q) (λ e. cc)
            (λ r shorter. syntax_array-Halts fuel depth r (omega arith)))

  syntax_object-Halts :
      (fuel depth : ℕ) (p : Str) → suc (2 * length p) < fuel → Halts (syntax_object fuel depth p)
  syntax_object-Halts zero depth p enough = absurd (omega arith)
  syntax_object-Halts (suc fuel) depth p enough =
      >>=-Halts (member_key p) _ (member_key-Halts p) (λ k hk.
        let short = key_shorter p k hk in
        >>=-Halts (syntax_value fuel (suc depth) k) _
          (syntax_value-Halts fuel (suc depth) k (omega arith))
          (λ q h.
            let less = value_shorter fuel (suc depth) k q h in
            let blank = syntax_ws-le q in
            separated-Halts b'}' object_separator (syntax_object fuel depth) (syntax_ws q) (λ e. cc)
              (λ r shorter. syntax_object-Halts fuel depth r (omega arith))))

ends_here-Halts : (s : Str) → Halts (ends_here s)
unfolding ends_here
ends_here-Halts [] = λ e. cc
ends_here-Halts (c ∷ s) = λ e. cc

-- The check of any text comes to its end: the fuel handed out, one more than twice the bytes, never
-- runs out, so that what is answered is what the loops of the code answer.
pub validate_complete-Halts :
    (first : ℕ) (json : Str) → validate_complete first json ≢ err out_of_fuel
unfolding validate_complete
validate_complete-Halts first json =
    if-intro (λ (o : Outcome JsonError (Unit {0})). Halts o)
      (not (first == 0) && not (starts_with first (syntax_ws json))) (err bad_first) _ (λ _ e. cc)
      (λ _.
        >>=-Halts (syntax_value (suc (2 * length (syntax_ws json))) 0 (syntax_ws json))
          (λ q. ends_here (syntax_ws q))
          (syntax_value-Halts (suc (2 * length (syntax_ws json))) 0 (syntax_ws json) (omega arith))
          (λ q _. ends_here-Halts (syntax_ws q)))
