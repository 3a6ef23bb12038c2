-- ===== src/Json/Values.antt =====
-- Values and keys in the grammar check of extension/remote/dstudio_json_tokens.h: what is passed over is one, where that holds for its elements.
use dstudio.Base.{
  ℕ, suc, ◌≤◌, ◌≡◌, ap, ◌∙◌, inl, inr, ◌||◌, List, [], ◌∷◌, ◌++◌, Str, is_digit, ◌==◌, All, arith,
  Bool-cases, ok, >>=-eq-ok,
}
use dstudio.Json.{
  Scan, colon, max_depth, member_key, opened, plain, syntax_string, syntax_ws, value_at,
}
use dstudio.Json.Lexemes.{syntax_string_sound, syntax_ws-split}
use dstudio.Json.Numbers.{syntax_number_sound}
use dstudio.Json.Tree.{
  IsPiece, IsSpaces, IsValue, Piece, Value, array, empty_array, empty_object, number, object,
  pieces_before, string, value_before, word,
}
use dstudio.Json.Elements.{
  PassesItems, PassesMembers, items_before-pad, members_before-pad, opened_cases, pad_items,
  pad_items-AreItems, pad_members, pad_members-AreMembers, same, syntax_word_sound,
}

pub member_key_sound :
    (s rest : Str)
    → member_key s ≡ ok rest
    → (key : List Piece) × (b : Str) × All IsPiece key
      × IsSpaces b
      × (s ≡ b'"' ∷ pieces_before key (b ++ (b':' ∷ rest)))
unfolding member_key
member_key_sound [] rest h = cc
member_key_sound (c ∷ p) rest h = elim (Bool-cases (c == b'"')) [
  | inl quote ↦
      let (q, hq, hc) =
        >>=-eq-ok (syntax_string plain p) (λ q. colon (syntax_ws q)) (rw quote at h) in
      let (key, good, e) = syntax_string_sound p q hq in
      let (b, spaces, eb, solid) = syntax_ws-split q in
      (
        key,
        b,
        good,
        spaces,
        ap (λ d. d ∷ p) (same c b'"' quote)
            ∙ ap (λ t. b'"' ∷ t)
                (e
                  ∙ ap (pieces_before key)
                      (eb ∙ ap (λ t. b ++ t) (colon_sound (syntax_ws q) rest hc))),
      )
  | inr n ↦ ground arith
]
  where
    colon_sound : (s rest : Str) → colon s ≡ ok rest → s ≡ b':' ∷ rest
    colon_sound [] rest h = cc
    colon_sound (c ∷ p) rest h = elim (Bool-cases (c == b':')) [
      | inl e ↦
          let left : p ≡ rest = ground arith in
          ap (λ d. d ∷ p) (same c b':' e) ∙ ap (λ t. b':' ∷ t) left
      | inr n ↦ ground arith
    ]

-- A value that opens an array or an object.
array_value :
    (depth : ℕ) (loop : Str → Scan) (p rest : Str)
    → depth ≤ max_depth
    → PassesItems depth loop
    → opened b']' loop (syntax_ws p) ≡ ok rest
    → (v : Value) × IsValue depth v × (b'[' ∷ p ≡ value_before v rest)
array_value depth loop p rest deep passes h =
    let (w, spaces, e, solid) = syntax_ws-split p in
    elim (opened_cases b']' loop (syntax_ws p) rest h) [
      | inl close ↦ (empty_array w, (deep, spaces), ap (λ t. b'[' ∷ t) (e ∙ ap (λ t. w ++ t) close))
      | inr more ↦
          let (items, good, ei) = passes (syntax_ws p) rest more in
          (
            array (pad_items w items),
            (deep, pad_items-AreItems (suc depth) w items spaces good),
            ap (λ t. b'[' ∷ t) (e ∙ ap (λ t. w ++ t) ei ∙ items_before-pad w items rest),
          )
    ]

object_value :
    (depth : ℕ) (loop : Str → Scan) (p rest : Str)
    → depth ≤ max_depth
    → PassesMembers depth loop
    → opened b'}' loop (syntax_ws p) ≡ ok rest
    → (v : Value) × IsValue depth v × (b'{' ∷ p ≡ value_before v rest)
object_value depth loop p rest deep passes h =
    let (w, spaces, e, solid) = syntax_ws-split p in
    elim (opened_cases b'}' loop (syntax_ws p) rest h) [
      | inl close ↦
          (empty_object w, (deep, spaces), ap (λ t. b'{' ∷ t) (e ∙ ap (λ t. w ++ t) close))
      | inr more ↦
          let (members, good, em) = passes (syntax_ws p) rest more in
          (
            object (pad_members w members),
            (deep, pad_members-AreMembers (suc depth) w members spaces good),
            ap (λ t. b'{' ∷ t) (e ∙ ap (λ t. w ++ t) em ∙ members_before-pad w members rest),
          )
    ]

pub value_at_sound :
    (depth : ℕ) (items members : Str → Scan) (s rest : Str)
    → depth ≤ max_depth
    → PassesItems depth items
    → PassesMembers depth members
    → value_at items members s ≡ ok rest
    → (v : Value) × IsValue depth v × (s ≡ value_before v rest)
unfolding value_at
value_at_sound depth items members [] rest deep pi pm h = cc
value_at_sound depth items members (c ∷ p) rest deep pi pm h = elim (Bool-cases (c == b'"')) [
  | inl quote ↦
      let (pieces, good, e) = syntax_string_sound p rest (rw quote at h) in
      (string pieces, (deep, good), ap (λ d. d ∷ p) (same c b'"' quote) ∙ ap (λ t. b'"' ∷ t) e)
  | inr n1 ↦ elim (Bool-cases (c == b'{')) [
    | inl brace ↦
        let (v, good, e) = object_value depth members p rest deep pm (rw (n1, brace) at h) in
        (v, good, ap (λ d. d ∷ p) (same c b'{' brace) ∙ e)
    | inr n2 ↦ elim (Bool-cases (c == b'[')) [
      | inl bracket ↦
          let (v, good, e) = array_value depth items p rest deep pi (rw (n1, n2, bracket) at h) in
          (v, good, ap (λ d. d ∷ p) (same c b'[' bracket) ∙ e)
      | inr n3 ↦ elim (Bool-cases (c == b'-' || is_digit c)) [
        | inl num ↦
            let (n, good, e) = syntax_number_sound (c ∷ p) rest (rw (n1, n2, n3, num) at h) in
            (number n, (deep, good), e)
        | inr n4 ↦
            let (w, e) = syntax_word_sound (c ∷ p) rest (rw (n1, n2, n3, n4) at h) in
            (word w, deep, e)
      ]
    ]
  ]
]
