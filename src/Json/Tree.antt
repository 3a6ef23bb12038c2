-- ===== src/Json/Tree.antt =====
-- JSON texts as trees that keep each byte: what `dtg_json_validate_complete` of
-- extension/remote/dstudio_json_tokens.h is to accept.
use dstudio.Base.{
  ℕ, suc, ◌≤◌, ◌≡◌, Bool, true, false, ◌&&◌, ◌||◌, List, [], ◌∷◌, ◌++◌, Str, codes, is_digit, ◌==◌,
  leb, All,
}
use dstudio.Json.{is_escape, is_space, is_xdigit, max_depth}

-- A character of a string, an escape, or an escape by four hexadecimal digits.
pub data Piece : Type 0 where
  char : ℕ → Piece
  escape : ℕ → Piece
  unicode : ℕ → ℕ → ℕ → ℕ → Piece

abbrev pub IsPiece : Piece → Type 0
IsPiece (char c) = (leb 0x20 c ≡ true) × ((c == b'"') ≡ false) × ((c == b'\\') ≡ false)
IsPiece (escape c) = is_escape c ≡ true
IsPiece (unicode a b c d) =
    (is_xdigit a ≡ true) × (is_xdigit b ≡ true) × (is_xdigit c ≡ true) × (is_xdigit d ≡ true)

-- The pieces, the closing quote and what follows.
abbrev pub pieces_before : List Piece → Str → Str
pieces_before [] rest = b'"' ∷ rest
pieces_before (char c ∷ pieces) rest = c ∷ pieces_before pieces rest
pieces_before (escape c ∷ pieces) rest = b'\\' ∷ c ∷ pieces_before pieces rest
pieces_before (unicode a b c d ∷ pieces) rest =
    b'\\' ∷ b'u' ∷ a ∷ b ∷ c ∷ d ∷ pieces_before pieces rest

pub data Integer : Type 0 where
  nought : Integer
  nonzero : ℕ → Str → Integer

pub data Fraction : Type 0 where
  no_fraction : Fraction
  fraction : ℕ → Str → Fraction

pub data Sign : Type 0 where
  unsigned plus minus : Sign

pub data Exponent : Type 0 where
  no_exponent : Exponent
  exponent : ℕ → Sign → ℕ → Str → Exponent

pub record Number : Type 0 where
  pub negative : Bool
  pub int : Integer
  pub frac : Fraction
  pub exp : Exponent

abbrev pub AllDigits : Str → Type 0
AllDigits s = All (λ c. is_digit c ≡ true) s

abbrev pub IsInteger : Integer → Type 0
IsInteger nought = Unit {0}
IsInteger (nonzero c s) = ((leb b'1' c && leb c b'9') ≡ true) × AllDigits s

abbrev pub IsFraction : Fraction → Type 0
IsFraction no_fraction = Unit {0}
IsFraction (fraction c s) = (is_digit c ≡ true) × AllDigits s

abbrev pub IsExponent : Exponent → Type 0
IsExponent no_exponent = Unit {0}
IsExponent (exponent e sign c s) =
    ((e == b'e' || e == b'E') ≡ true) × (is_digit c ≡ true) × AllDigits s

abbrev pub IsNumber : Number → Type 0
IsNumber n = IsInteger n.int × IsFraction n.frac × IsExponent n.exp

abbrev pub integer_before : Integer → Str → Str
integer_before nought rest = b'0' ∷ rest
integer_before (nonzero c s) rest = c ∷ (s ++ rest)

abbrev pub fraction_before : Fraction → Str → Str
fraction_before no_fraction rest = rest
fraction_before (fraction c s) rest = b'.' ∷ c ∷ (s ++ rest)

abbrev pub sign_before : Sign → Str → Str
sign_before unsigned rest = rest
sign_before plus rest = b'+' ∷ rest
sign_before minus rest = b'-' ∷ rest

abbrev pub exponent_before : Exponent → Str → Str
exponent_before no_exponent rest = rest
exponent_before (exponent e sign c s) rest = e ∷ sign_before sign (c ∷ (s ++ rest))

abbrev pub minus_before : Bool → Str → Str
minus_before true rest = b'-' ∷ rest
minus_before false rest = rest

abbrev pub number_before : Number → Str → Str
number_before n rest =
    minus_before n.negative
      (integer_before n.int (fraction_before n.frac (exponent_before n.exp rest)))

abbrev pub IsSpaces : Str → Type 0
IsSpaces s = All (λ c. is_space c ≡ true) s

pub data Word : Type 0 where
  word_true word_false word_null : Word

abbrev pub word_text : Word → Str
word_text word_true = codes "true"
word_text word_false = codes "false"
word_text word_null = codes "null"

-- Each text holds white space only. Values stand between white space, and what an element ends
-- with comes with it: another element, or the end.
mutual
  pub data Value : Type 0 where
    string : List Piece → Value
    number : Number → Value
    word : Word → Value
    empty_array : Str → Value
    array : Items → Value
    empty_object : Str → Value
    object : Members → Value

  pub data Items : Type 0 where
    last_item : Str → Value → Str → Items
    item : Str → Value → Str → Items → Items

  pub data Members : Type 0 where
    last_member : Str → List Piece → Str → Str → Value → Str → Members
    member : Str → List Piece → Str → Str → Value → Str → Members → Members

-- The text of a tree, with what follows.
abbrev mutual
  pub value_before : Value → Str → Str
  value_before (string pieces) rest = b'"' ∷ pieces_before pieces rest
  value_before (number n) rest = number_before n rest
  value_before (word w) rest = word_text w ++ rest
  value_before (empty_array ws) rest = b'[' ∷ (ws ++ (b']' ∷ rest))
  value_before (array items) rest = b'[' ∷ items_before items rest
  value_before (empty_object ws) rest = b'{' ∷ (ws ++ (b'}' ∷ rest))
  value_before (object members) rest = b'{' ∷ members_before members rest

  pub items_before : Items → Str → Str
  items_before (last_item a v b) rest = a ++ value_before v (b ++ (b']' ∷ rest))
  items_before (item a v b items) rest = a ++ value_before v (b ++ (b',' ∷ items_before items rest))

  pub members_before : Members → Str → Str
  members_before (last_member a key b c v d) rest =
      a ++ (b'"' ∷ pieces_before key (b ++ (b':' ∷ (c ++ value_before v (d ++ (b'}' ∷ rest))))))
  members_before (member a key b c v d members) rest =
      a
      ++ (b'"'
          ∷ pieces_before key
              (b ++ (b':' ∷ (c ++ value_before v (d ++ (b',' ∷ members_before members rest))))))

-- What the bytes of a tree at a depth have to be.
abbrev mutual
  pub IsValue : ℕ → Value → Type 0
  IsValue depth (string pieces) = (depth ≤ max_depth) × All IsPiece pieces
  IsValue depth (number n) = (depth ≤ max_depth) × IsNumber n
  IsValue depth (word w) = depth ≤ max_depth
  IsValue depth (empty_array ws) = (depth ≤ max_depth) × IsSpaces ws
  IsValue depth (array items) = (depth ≤ max_depth) × AreItems (suc depth) items
  IsValue depth (empty_object ws) = (depth ≤ max_depth) × IsSpaces ws
  IsValue depth (object members) = (depth ≤ max_depth) × AreMembers (suc depth) members

  pub AreItems : ℕ → Items → Type 0
  AreItems depth (last_item a v b) = IsSpaces a × IsValue depth v × IsSpaces b
  AreItems depth (item a v b items) =
      IsSpaces a × IsValue depth v × IsSpaces b × AreItems depth items

  pub AreMembers : ℕ → Members → Type 0
  AreMembers depth (last_member a key b c v d) =
      IsSpaces a × All IsPiece key × IsSpaces b × IsSpaces c × IsValue depth v × IsSpaces d
  AreMembers depth (member a key b c v d members) =
      IsSpaces a
      × All IsPiece key
      × IsSpaces b
      × IsSpaces c
      × IsValue depth v
      × IsSpaces d
      × AreMembers depth members
