-- ===== src/Json/Lexemes.antt =====
-- White space and strings in the grammar check of extension/remote/dstudio_json_tokens.h.
use dstudio.Base.{
  ℕ, zero, suc, ◌+◌, ◌≡◌, refl, sym, ap, ◌∙◌, true, false, List, [], ◌∷◌, ◌++◌, append_assoc, Str,
  ◌==◌, length, length-append, All, All-append, arith, Bool-cases, inl, inr, ok,
}
use dstudio.Json.{
  StringMode, plain, escaped, hex, continues, string_goes, string_step, syntax_string, syntax_ws,
  is_space, is_xdigit, is_escape,
}
use dstudio.Json.Tree.{IsPiece, IsSpaces, Piece, char, escape, unicode, pieces_before}

-- A text that does not start with white space.
abbrev pub IsSolid : Str → Type 0
IsSolid [] = Unit
IsSolid (c ∷ p) = is_space c ≡ false

pub syntax_ws-split :
    (s : Str) → (ws : Str) × IsSpaces ws × (s ≡ ws ++ syntax_ws s) × IsSolid (syntax_ws s)
unfolding syntax_ws
syntax_ws-split [] = ([], tt, refl, tt)
syntax_ws-split (c ∷ p) = elim (Bool-cases (is_space c)) [
  | inl space ↦
      let (ws, spaces, e, solid) = syntax_ws-split p in
      (c ∷ ws, (space, spaces), rw space (ap (λ t. c ∷ t) e), rw space solid)
  | inr other ↦ ([], tt, rw other refl, rw other other)
]

pub syntax_ws-before : (ws rest : Str) → IsSpaces ws → IsSolid rest → syntax_ws (ws ++ rest) ≡ rest
unfolding syntax_ws
syntax_ws-before [] [] h solid = refl
syntax_ws-before [] (c ∷ p) h solid = rw solid refl
syntax_ws-before (c ∷ ws) rest h solid = rw h.0 (syntax_ws-before ws rest h.1 solid)

-- What was read of a piece in each mode, and what is known of it.
abbrev behind_mode : StringMode → Str → Str → Str
behind_mode plain seen s = s
behind_mode escaped seen s = b'\\' ∷ s
behind_mode (hex n) seen s = b'\\' ∷ b'u' ∷ (seen ++ s)

abbrev IsSeen : StringMode → Str → Type 0
IsSeen plain seen = Unit {0}
IsSeen escaped seen = Unit {0}
IsSeen (hex n) seen = All (λ c. is_xdigit c ≡ true) seen × (length seen + n ≡ 3)

abbrev pub Pieces : Str → Str → Type 0
Pieces s rest = (pieces : List Piece) × All IsPiece pieces × (s ≡ pieces_before pieces rest)

is_eq : (c d : ℕ) → (c == d) ≡ true → c ≡ d
is_eq c d h = ground arith

-- Four digits make a piece.
unicode_piece :
    (seen : Str) (c : ℕ) (p rest : Str)
    → IsSeen (hex 0) seen
    → is_xdigit c ≡ true
    → Pieces p rest
    → Pieces (b'\\' ∷ b'u' ∷ (seen ++ c ∷ p)) rest
unicode_piece (x ∷ y ∷ z ∷ []) c p rest seen digit (pieces, good, e) = (
  unicode x y z c ∷ pieces,
  ((seen.0.0, seen.0.1.0, seen.0.1.1.0, digit), good),
  ap (λ t. b'\\' ∷ b'u' ∷ x ∷ y ∷ z ∷ c ∷ t) e,
)
unicode_piece [] c p rest seen digit more = absurd (omega (arith, seen.1))
unicode_piece (x ∷ []) c p rest seen digit more = absurd (omega (arith, seen.1))
unicode_piece (x ∷ y ∷ []) c p rest seen digit more = absurd (omega (arith, seen.1))
unicode_piece (x ∷ y ∷ z ∷ w ∷ seen') c p rest seen digit more = absurd (omega (arith, seen.1))

string_sound :
    (mode : StringMode) (seen s rest : Str)
    → IsSeen mode seen
    → syntax_string mode s ≡ ok rest
    → Pieces (behind_mode mode seen s) rest
unfolding syntax_string
string_sound mode seen [] rest fits h = cc
string_sound plain seen (c ∷ p) rest fits h = elim (Bool-cases (c == b'"')) [
  | inl quote ↦ ([], tt, ground arith)
  | inr n1 ↦ elim (Bool-cases (c == b'\\')) [
    | inl slash ↦
        let inner : syntax_string escaped p ≡ ok rest = ground arith in
        let (pieces, good, e) = string_sound escaped [] p rest tt inner in
        (pieces, good, ap (λ d. d ∷ p) (is_eq c b'\\' slash) ∙ e)
    | inr n2 ↦
        let inner : syntax_string plain p ≡ ok rest = ground arith in
        let (pieces, good, e) = string_sound plain [] p rest tt inner in
        (char c ∷ pieces, ((ground arith, n1, n2), good), ap (λ t. c ∷ t) e)
  ]
]
string_sound escaped seen (c ∷ p) rest fits h = elim (Bool-cases (c == b'u')) [
  | inl u ↦
      let inner : syntax_string (hex 3) p ≡ ok rest = ground arith in
      let (pieces, good, e) = string_sound (hex 3) [] p rest (tt, omega arith) inner in
      (pieces, good, ap (λ d. b'\\' ∷ d ∷ p) (is_eq c b'u' u) ∙ e)
  | inr other ↦
      let known : is_escape c ≡ true = ground arith in
      let inner : syntax_string plain p ≡ ok rest = ground arith in
      let (pieces, good, e) = string_sound plain [] p rest tt inner in
      (escape c ∷ pieces, (known, good), ap (λ t. b'\\' ∷ c ∷ t) e)
]
string_sound (hex zero) seen (c ∷ p) rest fits h =
    let digit : is_xdigit c ≡ true = ground arith in
    let inner : syntax_string plain p ≡ ok rest = ground arith in
    unicode_piece seen c p rest fits digit (string_sound plain [] p rest tt inner)
string_sound (hex (suc n)) seen (c ∷ p) rest fits h =
    let digit : is_xdigit c ≡ true = ground arith in
    let inner : syntax_string (hex n) p ≡ ok rest = ground arith in
    let longer : IsSeen (hex n) (seen ++ c ∷ []) = (
      All-append (λ d. is_xdigit d ≡ true) seen (c ∷ []) fits.0 (digit, tt),
      omega (arith, length-append seen (c ∷ []), fits.1),
    ) in
    let (pieces, good, e) = string_sound (hex n) (seen ++ c ∷ []) p rest longer inner in
    (pieces, good, ap (λ t. b'\\' ∷ b'u' ∷ t) (sym (append_assoc seen (c ∷ []) p)) ∙ e)

pub syntax_string_sound : (s rest : Str) → syntax_string plain s ≡ ok rest → Pieces s rest
syntax_string_sound s rest h = string_sound plain [] s rest tt h

pub syntax_string-before :
    (pieces : List Piece) (rest : Str)
    → All IsPiece pieces
    → syntax_string plain (pieces_before pieces rest) ≡ ok rest
unfolding syntax_string
syntax_string-before [] rest good = refl
syntax_string-before (char c ∷ pieces) rest good =
    let ((low, n1, n2), others) = good in
    let step : string_step plain c ≡ continues plain = ground arith in
    ap
      (λ st.
        string_goes st (pieces_before pieces rest)
          (λ m. syntax_string m (pieces_before pieces rest)))
      step
    ∙ syntax_string-before pieces rest others
syntax_string-before (escape c ∷ pieces) rest good =
    let known = good.0 in
    let step : string_step escaped c ≡ continues plain = ground arith in
    ap
      (λ st.
        string_goes st (pieces_before pieces rest)
          (λ m. syntax_string m (pieces_before pieces rest)))
      step
    ∙ syntax_string-before pieces rest good.1
syntax_string-before (unicode a b c d ∷ pieces) rest good =
    let ((ha, hb, hc, hd), others) = good in
    rw (ha, hb, hc, hd) (syntax_string-before pieces rest others)
