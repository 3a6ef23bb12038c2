-- ===== src/Json/Complete.antt =====
-- The grammar check of extension/remote/dstudio_json_tokens.h passes over every JSON value.
use dstudio.Base.{
  ℕ, zero, suc, ◌*◌, ◌<◌, ◌≡◌, refl, ap, ◌∙◌, [], ◌∷◌, ◌++◌, Str, length, arith, ok, ◌>>=◌,
}
use dstudio.Json.{
  opened, separated, syntax_array, syntax_object, syntax_value, syntax_ws, array_separator,
  object_separator,
}
use dstudio.Json.Lexemes.{syntax_string-before, syntax_ws-before}
use dstudio.Json.Numbers.{syntax_number-before}
use dstudio.Json.Digits.{IsEnd}
use dstudio.Json.Tree.{
  AreItems, AreMembers, IsSpaces, IsValue, Items, Members, Value, array, empty_array, empty_object,
  item, items_before, last_item, last_member, member, members_before, number, object, string,
  value_before, word,
}
use dstudio.Json.Lengths.{
  IsEnd-spaces, Opens-IsSolid, opened-Opens, pieces_longer, spaces_longer, value_before-Opens,
  value_longer,
}
use dstudio.Json.Steps.{
  items_lead, items_core, items_split, members_lead, members_core, members_split, skip_items,
  items_core-Opens, skip_members, opened-members, value_at-word, value_at-number, syntax_value_step,
  separated-close, separated-comma, object_step, value_at-array, value_at-object, value_at-string,
}

-- Each call has more fuel than twice the bytes that it meets; a loop needs one more.
mutual
  unfolding syntax_value

  pub syntax_value-before :
      (v : Value) (fuel depth : ℕ) (ws rest : Str)
      → IsValue depth v
      → IsSpaces ws
      → IsEnd rest
      → 2 * length (value_before v rest) < fuel
      → syntax_value fuel depth (ws ++ value_before v rest) ≡ ok rest
  syntax_value-before v zero depth ws rest good blank stop enough = absurd (omega arith)
  syntax_value-before (string pieces) (suc fuel) depth ws rest good blank stop enough =
      syntax_value_step fuel depth ws _ good.0 blank refl
      ∙ value_at-string _ _ _
      ∙ syntax_string-before pieces rest good.1
  syntax_value-before (number n) (suc fuel) depth ws rest good blank stop enough =
      syntax_value_step fuel depth ws _ good.0 blank
        (Opens-IsSolid _ (value_before-Opens depth (number n) rest good))
      ∙ value_at-number _ _ n.negative n.int _ good.1.0
      ∙ syntax_number-before n rest good.1 stop
  syntax_value-before (word w) (suc fuel) depth ws rest good blank stop enough =
      syntax_value_step fuel depth ws _ good blank
        (Opens-IsSolid _ (value_before-Opens depth (word w) rest good))
      ∙ value_at-word _ _ w rest
  syntax_value-before (empty_array gap) (suc fuel) depth ws rest good blank stop enough =
      syntax_value_step fuel depth ws _ good.0 blank refl
      ∙ value_at-array _ _ _
      ∙ ap (opened b']' (syntax_array fuel depth)) (syntax_ws-before gap (b']' ∷ rest) good.1 refl)
  syntax_value-before (array items) (suc fuel) depth ws rest good blank stop enough =
      let shorter = spaces_longer (items_lead items) (items_core items rest) in
      let split = ap length (items_split items rest) in
      syntax_value_step fuel depth ws _ good.0 blank refl
      ∙ value_at-array _ _ _
      ∙ ap (opened b']' (syntax_array fuel depth)) (skip_items (suc depth) items rest good.1)
      ∙ opened-Opens (syntax_array fuel depth) _ (items_core-Opens (suc depth) items rest good.1)
      ∙ syntax_array-before items fuel depth rest good.1 (omega arith)
  syntax_value-before (empty_object gap) (suc fuel) depth ws rest good blank stop enough =
      syntax_value_step fuel depth ws _ good.0 blank refl
      ∙ value_at-object _ _ _
      ∙ ap (opened b'}' (syntax_object fuel depth)) (syntax_ws-before gap (b'}' ∷ rest) good.1 refl)
  syntax_value-before (object members) (suc fuel) depth ws rest good blank stop enough =
      let shorter = spaces_longer (members_lead members) (members_core members rest) in
      let split = ap length (members_split members rest) in
      syntax_value_step fuel depth ws _ good.0 blank refl
      ∙ value_at-object _ _ _
      ∙ ap (opened b'}' (syntax_object fuel depth)) (skip_members (suc depth) members rest good.1)
      ∙ opened-members (syntax_object fuel depth) members rest
      ∙ syntax_object-before members fuel depth rest good.1 (omega arith)

  syntax_array-before :
      (items : Items) (fuel depth : ℕ) (rest : Str)
      → AreItems (suc depth) items
      → suc (2 * length (items_core items rest)) < fuel
      → syntax_array fuel depth (items_core items rest) ≡ ok rest
  syntax_array-before items zero depth rest good enough = absurd (omega arith)
  syntax_array-before (last_item a v b) (suc fuel) depth rest good enough =
      ap (λ o. o >>= (λ q. separated b']' array_separator (syntax_array fuel depth) (syntax_ws q)))
        (syntax_value-before v fuel (suc depth) [] (b ++ b']' ∷ rest) good.1 tt
          (IsEnd-spaces b b']' rest good.2 refl) (omega arith))
      ∙ separated-close b']' array_separator (syntax_array fuel depth) b rest good.2 refl refl
  syntax_array-before (item a v b items) (suc fuel) depth rest good enough =
      let more = items_before items rest in
      let longer = value_longer v (b ++ b',' ∷ more) in
      let gap = spaces_longer b (b',' ∷ more) in
      let lead = spaces_longer (items_lead items) (items_core items rest) in
      let split = ap length (items_split items rest) in
      ap (λ o. o >>= (λ q. separated b']' array_separator (syntax_array fuel depth) (syntax_ws q)))
        (syntax_value-before v fuel (suc depth) [] (b ++ b',' ∷ more) good.1 tt
          (IsEnd-spaces b b',' more good.2 refl) (omega arith))
      ∙ separated-comma b']' array_separator (syntax_array fuel depth) b more good.2
      ∙ ap (syntax_array fuel depth) (skip_items (suc depth) items rest good.3)
      ∙ syntax_array-before items fuel depth rest good.3 (omega arith)

  syntax_object-before :
      (members : Members) (fuel depth : ℕ) (rest : Str)
      → AreMembers (suc depth) members
      → suc (2 * length (members_core members rest)) < fuel
      → syntax_object fuel depth (members_core members rest) ≡ ok rest
  syntax_object-before members zero depth rest good enough = absurd (omega arith)
  syntax_object-before (last_member a key b c v d) (suc fuel) depth rest good enough =
      let tail = d ++ b'}' ∷ rest in
      let quoted = pieces_longer key (b ++ b':' ∷ (c ++ value_before v tail)) in
      let gap = spaces_longer b (b':' ∷ (c ++ value_before v tail)) in
      let front = spaces_longer c (value_before v tail) in
      object_step fuel depth key b c v tail good.1 good.2 (
        syntax_value-before v fuel (suc depth) c tail good.4 good.3
          (IsEnd-spaces d b'}' rest good.5 refl) (omega arith))
      ∙ separated-close b'}' object_separator (syntax_object fuel depth) d rest good.5 refl refl
  syntax_object-before (member a key b c v d members) (suc fuel) depth rest good enough =
      let more = members_before members rest in
      let tail = d ++ b',' ∷ more in
      let quoted = pieces_longer key (b ++ b':' ∷ (c ++ value_before v tail)) in
      let gap = spaces_longer b (b':' ∷ (c ++ value_before v tail)) in
      let front = spaces_longer c (value_before v tail) in
      let longer = value_longer v tail in
      let behind = spaces_longer d (b',' ∷ more) in
      let lead = spaces_longer (members_lead members) (members_core members rest) in
      let split = ap length (members_split members rest) in
      object_step fuel depth key b c v tail good.1 good.2 (
        syntax_value-before v fuel (suc depth) c tail good.4 good.3
          (IsEnd-spaces d b',' more good.5 refl) (omega arith))
      ∙ separated-comma b'}' object_separator (syntax_object fuel depth) d more good.5
      ∙ ap (syntax_object fuel depth) (skip_members (suc depth) members rest good.6)
      ∙ syntax_object-before members fuel depth rest good.6 (omega arith)
