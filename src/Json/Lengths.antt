-- ===== src/Json/Lengths.antt =====
-- How the texts of extension/remote/dstudio_json_tokens.h start, and how long they are.
use dstudio.Base.{
  ℕ, ◌≤◌, ◌<◌, ◌≡◌, refl, Bool, true, false, ◌||◌, List, [], ◌∷◌, ◌++◌, Str, is_digit, ◌==◌, length,
  length-append, arith,
}
use dstudio.Json.{Scan, opened}
use dstudio.Json.Lexemes.{IsSolid}
use dstudio.Json.Digits.{IsEnd}
use dstudio.Json.Tree.{
  IsSpaces, IsValue, Items, Members, Piece, Value, array, char, empty_array, empty_object, escape,
  item, items_before, last_item, last_member, member, members_before, number, object, pieces_before,
  string, unicode, value_before, word, word_false, word_null, word_true, Number, number_before,
  Integer, nought, nonzero, integer_before, Fraction, fraction, no_fraction, fraction_before,
  Exponent, exponent, no_exponent, exponent_before, plus, minus, unsigned, minus_before, IsInteger,
}

-- What a value may start with.
abbrev pub is_opening : ℕ → Bool
is_opening c =
    c == b'"'
    || c == b'{'
    || c == b'['
    || c == b'-'
    || is_digit c
    || c == b't'
    || c == b'f'
    || c == b'n'

abbrev pub Opens : Str → Type 0
Opens [] = ⊥
Opens (c ∷ p) = is_opening c ≡ true

minus_before-Opens :
    (b : Bool) (i : Integer) (rest : Str)
    → IsInteger i
    → Opens (minus_before b (integer_before i rest))
minus_before-Opens true i rest good = refl
minus_before-Opens false nought rest good = refl
minus_before-Opens false (nonzero c s) rest good = let first = good.0 in ground arith

pub value_before-Opens :
    (depth : ℕ) (v : Value) (rest : Str) → IsValue depth v → Opens (value_before v rest)
value_before-Opens depth (string pieces) rest good = refl
value_before-Opens depth (number n) rest good = minus_before-Opens n.negative n.int _ good.1.0
value_before-Opens depth (word word_true) rest good = refl
value_before-Opens depth (word word_false) rest good = refl
value_before-Opens depth (word word_null) rest good = refl
value_before-Opens depth (empty_array ws) rest good = refl
value_before-Opens depth (array items) rest good = refl
value_before-Opens depth (empty_object ws) rest good = refl
value_before-Opens depth (object members) rest good = refl

pub Opens-IsSolid : (s : Str) → Opens s → IsSolid s
Opens-IsSolid [] h = tt
Opens-IsSolid (c ∷ p) h = ground arith

pub opened-Opens : (loop : Str → Scan) (s : Str) → Opens s → opened b']' loop s ≡ loop s
opened-Opens loop [] h = refl
opened-Opens loop (c ∷ p) h = let other : (c == b']') ≡ false = ground arith in rw other refl

pub IsEnd-spaces :
    (ws : Str) (c : ℕ) (rest : Str) → IsSpaces ws → IsEnd (c ∷ rest) → IsEnd (ws ++ c ∷ rest)
IsEnd-spaces [] c rest h stop = stop
IsEnd-spaces (d ∷ ws) c rest h stop = let space = h.0 in ground arith

-- The text of a value is longer than what follows it.
pub pieces_longer :
    (pieces : List Piece) (rest : Str) → length rest < length (pieces_before pieces rest)
pieces_longer [] rest = omega arith
pieces_longer (char c ∷ pieces) rest = omega (arith, pieces_longer pieces rest)
pieces_longer (escape c ∷ pieces) rest = omega (arith, pieces_longer pieces rest)
pieces_longer (unicode a b c d ∷ pieces) rest = omega (arith, pieces_longer pieces rest)

exponent_longer : (x : Exponent) (rest : Str) → length rest ≤ length (exponent_before x rest)
exponent_longer no_exponent rest = omega arith
exponent_longer (exponent e plus c s) rest = omega (arith, length-append s rest)
exponent_longer (exponent e minus c s) rest = omega (arith, length-append s rest)
exponent_longer (exponent e unsigned c s) rest = omega (arith, length-append s rest)

fraction_longer : (f : Fraction) (rest : Str) → length rest ≤ length (fraction_before f rest)
fraction_longer no_fraction rest = omega arith
fraction_longer (fraction c s) rest = omega (arith, length-append s rest)

minus_longer :
    (b : Bool) (i : Integer) (rest : Str)
    → length rest < length (minus_before b (integer_before i rest))
minus_longer true nought rest = omega arith
minus_longer false nought rest = omega arith
minus_longer true (nonzero c s) rest = omega (arith, length-append s rest)
minus_longer false (nonzero c s) rest = omega (arith, length-append s rest)

number_longer : (n : Number) (rest : Str) → length rest < length (number_before n rest)
number_longer n rest =
    let x = exponent_longer n.exp rest in
    let f = fraction_longer n.frac (exponent_before n.exp rest) in
    omega
      (arith, minus_longer n.negative n.int (fraction_before n.frac (exponent_before n.exp rest)))

pub spaces_longer : (ws rest : Str) → length rest ≤ length (ws ++ rest)
spaces_longer ws rest = omega (arith, length-append ws rest)

mutual
  pub value_longer : (v : Value) (rest : Str) → length rest < length (value_before v rest)
  value_longer (string pieces) rest = omega (arith, pieces_longer pieces rest)
  value_longer (number n) rest = number_longer n rest
  value_longer (word word_true) rest = omega arith
  value_longer (word word_false) rest = omega arith
  value_longer (word word_null) rest = omega arith
  value_longer (empty_array ws) rest = omega (arith, spaces_longer ws (b']' ∷ rest))
  value_longer (array items) rest = omega (arith, items_longer items rest)
  value_longer (empty_object ws) rest = omega (arith, spaces_longer ws (b'}' ∷ rest))
  value_longer (object members) rest = omega (arith, members_longer members rest)

  pub items_longer : (items : Items) (rest : Str) → length rest < length (items_before items rest)
  items_longer (last_item a v b) rest =
      let end = spaces_longer b (b']' ∷ rest) in
      let mid = value_longer v (b ++ b']' ∷ rest) in
      omega (arith, spaces_longer a (value_before v (b ++ b']' ∷ rest)))
  items_longer (item a v b items) rest =
      let more = items_longer items rest in
      let end = spaces_longer b (b',' ∷ items_before items rest) in
      let mid = value_longer v (b ++ b',' ∷ items_before items rest) in
      omega (arith, spaces_longer a (value_before v (b ++ b',' ∷ items_before items rest)))

  pub members_longer :
      (members : Members) (rest : Str) → length rest < length (members_before members rest)
  members_longer (last_member a key b c v d) rest =
      let t₀ = d ++ b'}' ∷ rest in
      let t₁ = c ++ value_before v t₀ in
      let t₂ = b ++ b':' ∷ t₁ in
      let h₀ = spaces_longer d (b'}' ∷ rest) in
      let h₁ = value_longer v t₀ in
      let h₂ = spaces_longer c (value_before v t₀) in
      let h₃ = spaces_longer b (b':' ∷ t₁) in
      let h₄ = pieces_longer key t₂ in omega (arith, spaces_longer a (b'"' ∷ pieces_before key t₂))
  members_longer (member a key b c v d members) rest =
      let t₀ = d ++ b',' ∷ members_before members rest in
      let t₁ = c ++ value_before v t₀ in
      let t₂ = b ++ b':' ∷ t₁ in
      let more = members_longer members rest in
      let h₀ = spaces_longer d (b',' ∷ members_before members rest) in
      let h₁ = value_longer v t₀ in
      let h₂ = spaces_longer c (value_before v t₀) in
      let h₃ = spaces_longer b (b':' ∷ t₁) in
      let h₄ = pieces_longer key t₂ in omega (arith, spaces_longer a (b'"' ∷ pieces_before key t₂))
