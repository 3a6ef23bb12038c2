-- ===== src/Json/Steps.antt =====
-- The grammar check of extension/remote/dstudio_json_tokens.h one step at a time.
use dstudio.Base.{
  ℕ, suc, ◌≤◌, ◌≡◌, refl, Bool, true, false, ◌||◌, List, ◌∷◌, ◌++◌, Str, has_prefix, is_digit, ◌==◌,
  ltb, All, arith, ok,
}
use dstudio.Json.{
  Scan, is_space, max_depth, member_key, opened, plain, separated, syntax_array, syntax_number,
  syntax_object, syntax_string, syntax_value, syntax_word, syntax_ws, value_at, object_separator,
  JsonError,
}
use dstudio.Json.Lexemes.{IsSolid, syntax_string-before, syntax_ws-before}
use dstudio.Json.Tree.{
  AreItems, AreMembers, IsPiece, IsSpaces, Items, Members, Piece, Value, Word, item, items_before,
  last_item, last_member, member, members_before, pieces_before, value_before, word_false,
  word_null, word_text, word_true, Integer, nought, nonzero, integer_before, minus_before,
  IsInteger,
}
use dstudio.Json.Lengths.{Opens, Opens-IsSolid, value_before-Opens}

-- The white space in front of elements, and the text behind it.
abbrev pub items_lead : Items → Str
items_lead (last_item a v b) = a
items_lead (item a v b items) = a

abbrev pub items_core : Items → Str → Str
items_core (last_item a v b) rest = value_before v (b ++ b']' ∷ rest)
items_core (item a v b items) rest = value_before v (b ++ b',' ∷ items_before items rest)

pub items_split :
    (items : Items) (rest : Str)
    → items_before items rest ≡ items_lead items ++ items_core items rest
items_split (last_item a v b) rest = refl
items_split (item a v b items) rest = refl

abbrev pub members_lead : Members → Str
members_lead (last_member a key b c v d) = a
members_lead (member a key b c v d members) = a

abbrev pub members_core : Members → Str → Str
members_core (last_member a key b c v d) rest =
    b'"' ∷ pieces_before key (b ++ b':' ∷ (c ++ value_before v (d ++ b'}' ∷ rest)))
members_core (member a key b c v d members) rest =
    b'"'
    ∷ pieces_before key
        (b ++ b':' ∷ (c ++ value_before v (d ++ b',' ∷ members_before members rest)))

pub members_split :
    (members : Members) (rest : Str)
    → members_before members rest ≡ members_lead members ++ members_core members rest
members_split (last_member a key b c v d) rest = refl
members_split (member a key b c v d members) rest = refl

-- White space in front of elements is passed over.
pub skip_items :
    (depth : ℕ) (items : Items) (rest : Str)
    → AreItems depth items
    → syntax_ws (items_before items rest) ≡ items_core items rest
skip_items depth (last_item a v b) rest good =
    syntax_ws-before a (value_before v (b ++ b']' ∷ rest)) good.0
      (Opens-IsSolid _ (value_before-Opens depth v (b ++ b']' ∷ rest) good.1))
skip_items depth (item a v b items) rest good =
    let more = b ++ b',' ∷ items_before items rest in
    syntax_ws-before a (value_before v more) good.0
      (Opens-IsSolid _ (value_before-Opens depth v more good.1))

pub items_core-Opens :
    (depth : ℕ) (items : Items) (rest : Str) → AreItems depth items → Opens (items_core items rest)
items_core-Opens depth (last_item a v b) rest good = value_before-Opens depth v _ good.1
items_core-Opens depth (item a v b items) rest good = value_before-Opens depth v _ good.1

pub skip_members :
    (depth : ℕ) (members : Members) (rest : Str)
    → AreMembers depth members
    → syntax_ws (members_before members rest) ≡ members_core members rest
skip_members depth (last_member a key b c v d) rest good = syntax_ws-before a _ good.0 refl
skip_members depth (member a key b c v d members) rest good = syntax_ws-before a _ good.0 refl

pub opened-members :
    (loop : Str → Scan) (members : Members) (rest : Str)
    → opened b'}' loop (members_core members rest) ≡ loop (members_core members rest)
opened-members loop (last_member a key b c v d) rest = refl
opened-members loop (member a key b c v d members) rest = refl

-- The cases of a value that is no array or object, and an empty one.
pub value_at-word :
    (items members : Str → Scan) (w : Word) (rest : Str)
    → value_at items members (word_text w ++ rest) ≡ ok rest
unfolding value_at syntax_word has_prefix
value_at-word items members word_true rest = refl
value_at-word items members word_false rest = refl
value_at-word items members word_null rest = refl

pub value_at-digit :
    (items members : Str → Scan) (c : ℕ) (p : Str)
    → is_digit c ≡ true
    → value_at items members (c ∷ p) ≡ syntax_number (c ∷ p)
unfolding value_at
value_at-digit items members c p digit =
    let n1 : (c == b'"') ≡ false = ground arith in
    let n2 : (c == b'{') ≡ false = ground arith in
    let n3 : (c == b'[') ≡ false = ground arith in
    let n4 : (c == b'-' || is_digit c) ≡ true = ground arith in rw (n1, n2, n3, n4) refl

pub value_at-number :
    (items members : Str → Scan) (b : Bool) (i : Integer) (rest : Str)
    → IsInteger i
    → value_at items members (minus_before b (integer_before i rest))
      ≡ syntax_number (minus_before b (integer_before i rest))
value_at-number items members true i rest good = unfold value_at in refl
value_at-number items members false nought rest good = value_at-digit items members b'0' rest refl
value_at-number items members false (nonzero c s) rest good =
    let first = good.0 in value_at-digit items members c (s ++ rest) (ground arith)

pub syntax_value_step :
    (fuel depth : ℕ) (ws s : Str)
    → depth ≤ max_depth
    → IsSpaces ws
    → IsSolid s
    → syntax_value (suc fuel) depth (ws ++ s)
      ≡ value_at (syntax_array fuel depth) (syntax_object fuel depth) s
unfolding syntax_value
syntax_value_step fuel depth ws s deep blank solid =
    let fine : ltb max_depth depth ≡ false = ground arith in
    rw (fine, syntax_ws-before ws s blank solid) refl

pub member_key-before :
    (key : List Piece) (b rest : Str)
    → All IsPiece key
    → IsSpaces b
    → member_key (b'"' ∷ pieces_before key (b ++ b':' ∷ rest)) ≡ ok rest
unfolding member_key
member_key-before key b rest good blank =
    rw (syntax_string-before key (b ++ b':' ∷ rest) good)
      (rw (syntax_ws-before b (b':' ∷ rest) blank refl) refl)

pub separated-close :
    (close : ℕ) (e : JsonError) (loop : Str → Scan) (b rest : Str)
    → IsSpaces b
    → is_space close ≡ false
    → (close == b',') ≡ false
    → separated close e loop (syntax_ws (b ++ close ∷ rest)) ≡ ok rest
separated-close close e loop b rest blank solid other =
    let itself : (close == close) ≡ true = ground arith in
    rw (syntax_ws-before b (close ∷ rest) blank solid) (rw (other, itself) refl)

pub separated-comma :
    (close : ℕ) (e : JsonError) (loop : Str → Scan) (b rest : Str)
    → IsSpaces b
    → separated close e loop (syntax_ws (b ++ b',' ∷ rest)) ≡ loop (syntax_ws rest)
separated-comma close e loop b rest blank = rw (syntax_ws-before b (b',' ∷ rest) blank refl) refl

-- A round of the loop over an object, up to what follows the value.
pub object_step :
    (fuel depth : ℕ) (key : List Piece) (b c : Str) (v : Value) (tail : Str)
    → All IsPiece key
    → IsSpaces b
    → syntax_value fuel (suc depth) (c ++ value_before v tail) ≡ ok tail
    → syntax_object
        (suc fuel)
        depth
        (b'"' ∷ pieces_before key (b ++ b':' ∷ (c ++ value_before v tail)))
      ≡ separated b'}' object_separator (syntax_object fuel depth) (syntax_ws tail)
unfolding syntax_object
object_step fuel depth key b c v tail good blank value =
    rw (member_key-before key b (c ++ value_before v tail) good blank) (rw value refl)

module _ (items members : Str → Scan) (p : Str) where
  pub value_at-string : value_at items members (b'"' ∷ p) ≡ syntax_string plain p
  unfolding value_at
  value_at-string = refl

  pub value_at-array : value_at items members (b'[' ∷ p) ≡ opened b']' items (syntax_ws p)
  unfolding value_at
  value_at-array = refl

  pub value_at-object : value_at items members (b'{' ∷ p) ≡ opened b'}' members (syntax_ws p)
  unfolding value_at
  value_at-object = refl
