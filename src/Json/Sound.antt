-- ===== src/Json/Sound.antt =====
-- What the grammar check of extension/remote/dstudio_json_tokens.h passes over is a JSON value.
use dstudio.Base.{
  ℕ, zero, suc, ◌≡◌, ap, ◌∙◌, inl, inr, List, [], ◌∷◌, ◌++◌, Str, ltb, All, arith, Bool-cases, ok,
  >>=-eq-ok, err-ne-ok,
}
use dstudio.Json.{
  JsonError, Scan, max_depth, member_key, separated, syntax_array, syntax_object, syntax_value,
  syntax_ws, array_separator, object_separator,
}
use dstudio.Json.Lexemes.{syntax_ws-split}
use dstudio.Json.Tree.{
  AreItems, AreMembers, IsPiece, IsSpaces, IsValue, Items, Members, Piece, Value, item,
  items_before, last_item, last_member, member, members_before, pieces_before, value_before,
}
use dstudio.Json.Elements.{
  PassesItems, PassesMembers, PassesValue, items_before-pad, members_before-pad, pad_items,
  pad_items-AreItems, pad_members, pad_members-AreMembers, separated_cases,
}
use dstudio.Json.Values.{member_key_sound, value_at_sound}

-- An element, and what it ends with.
items_sound :
    (depth : ℕ) (loop : Str → Scan) (q rest : Str)
    → PassesItems depth loop
    → separated b']' array_separator loop (syntax_ws q) ≡ ok rest
    → (a : Str) (v : Value) → IsSpaces a
    → IsValue (suc depth) v
    → (items : Items) × AreItems (suc depth) items
      × (a ++ value_before v q ≡ items_before items rest)
items_sound depth loop q rest passes h a v blank good =
    let (b, spaces, e, solid) = syntax_ws-split q in
    elim (separated_cases b']' array_separator loop (syntax_ws q) rest h) [
      | inl close ↦ (
        last_item a v b,
        (blank, good, spaces),
        ap (λ t. a ++ value_before v t) (e ∙ ap (λ t. b ++ t) close),
      )
      | inr (p, comma, more) ↦
          let (w, gap, ew, _) = syntax_ws-split p in
          let (items, rest_good, ei) = passes (syntax_ws p) rest more in
          (
            item a v b (pad_items w items),
            (blank, good, spaces, pad_items-AreItems (suc depth) w items gap rest_good),
            ap (λ t. a ++ value_before v t)
                (e
                  ∙ ap (λ t. b ++ t)
                      (comma
                        ∙ ap (λ t. b',' ∷ t)
                            (ew ∙ ap (λ t. w ++ t) ei ∙ items_before-pad w items rest))),
          )
    ]

members_sound :
    (depth : ℕ) (loop : Str → Scan) (q rest : Str)
    → PassesMembers depth loop
    → separated b'}' object_separator loop (syntax_ws q) ≡ ok rest
    → (key : List Piece) (b c : Str) (v : Value) → All IsPiece key
    → IsSpaces b
    → IsSpaces c
    → IsValue (suc depth) v
    → (members : Members) × AreMembers (suc depth) members
      × (b'"' ∷ pieces_before key (b ++ (b':' ∷ (c ++ value_before v q)))
          ≡ members_before members rest)
members_sound depth loop q rest passes h key b c v good_key gap_b gap_c good =
    let (d, spaces, e, solid) = syntax_ws-split q in
    let front = λ (t : Str). b'"' ∷ pieces_before key (b ++ (b':' ∷ (c ++ value_before v t))) in
    elim (separated_cases b'}' object_separator loop (syntax_ws q) rest h) [
      | inl close ↦ (
        last_member [] key b c v d,
        (tt, good_key, gap_b, gap_c, good, spaces),
        ap front (e ∙ ap (λ t. d ++ t) close),
      )
      | inr (p, comma, more) ↦
          let (w, gap, ew, _) = syntax_ws-split p in
          let (members, rest_good, em) = passes (syntax_ws p) rest more in
          (
            member [] key b c v d (pad_members w members),
            (
              tt,
              good_key,
              gap_b,
              gap_c,
              good,
              spaces,
              pad_members-AreMembers (suc depth) w members gap rest_good,
            ),
            ap front (
                e
                ∙ ap (λ t. d ++ t)
                    (comma
                      ∙ ap (λ t. b',' ∷ t)
                          (ew ∙ ap (λ t. w ++ t) em ∙ members_before-pad w members rest))),
          )
    ]

mutual
  unfolding syntax_value

  pub syntax_value_sound : (fuel depth : ℕ) → PassesValue depth (syntax_value fuel depth)
  syntax_value_sound zero depth p rest h = cc
  syntax_value_sound (suc fuel) depth p rest h = elim (Bool-cases (ltb max_depth depth)) [
    | inl deep ↦ absurd (err-ne-ok JsonError.too_deep rest (rw deep at h))
    | inr fine ↦
        let (w, spaces, e, solid) = syntax_ws-split p in
        let (v, good, ev) =
          value_at_sound depth (syntax_array fuel depth) (syntax_object fuel depth) (syntax_ws p)
            rest (ground arith) (syntax_array_sound fuel depth) (syntax_object_sound fuel depth)
            (rw fine at h) in
        (w, v, spaces, good, e ∙ ap (λ t. w ++ t) ev)
  ]

  syntax_array_sound : (fuel depth : ℕ) → PassesItems depth (syntax_array fuel depth)
  syntax_array_sound zero depth p rest h = cc
  syntax_array_sound (suc fuel) depth p rest h =
      let (q, hv, hs) = >>=-eq-ok (syntax_value fuel (suc depth) p) _ h in
      let (a, v, blank, good, e) = syntax_value_sound fuel (suc depth) p q hv in
      let (items, all_good, ei) =
        items_sound depth (syntax_array fuel depth) q rest (syntax_array_sound fuel depth) hs a v
          blank good in
      (items, all_good, e ∙ ei)

  syntax_object_sound : (fuel depth : ℕ) → PassesMembers depth (syntax_object fuel depth)
  syntax_object_sound zero depth p rest h = cc
  syntax_object_sound (suc fuel) depth p rest h =
      let (k, hk, h') = >>=-eq-ok (member_key p) _ h in
      let (q, hv, hs) = >>=-eq-ok (syntax_value fuel (suc depth) k) _ h' in
      let (key, b, good_key, gap, ek) = member_key_sound p k hk in
      let (c, v, blank, good, e) = syntax_value_sound fuel (suc depth) k q hv in
      let (members, all_good, em) =
        members_sound depth (syntax_object fuel depth) q rest (syntax_object_sound fuel depth) hs
          key b c v good_key gap blank good in
      (members, all_good, ek ∙ ap (λ t. b'"' ∷ pieces_before key (b ++ (b':' ∷ t))) e ∙ em)
