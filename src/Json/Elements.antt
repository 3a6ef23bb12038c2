-- ===== src/Json/Elements.antt =====
-- Elements and words in the grammar check of extension/remote/dstudio_json_tokens.h.
use dstudio.Base.{
  ℕ, suc, ◌≡◌, refl, sym, ap, ◌∙◌, ◌⊎◌, inl, inr, true, [], ◌∷◌, ◌++◌, append_assoc, Str,
  has_prefix, ◌==◌, All-append, arith, Bool-cases, ok, length,
}
use dstudio.Json.{JsonError, Scan, opened, separated, skip_bytes, syntax_word, syntax_ws}
use dstudio.Json.Tree.{
  AreItems, AreMembers, IsSpaces, IsValue, Items, Members, Value, Word, item, items_before,
  last_item, last_member, member, members_before, value_before, word_false, word_null, word_text,
  word_true,
}

pub same : (c d : ℕ) → (c == d) ≡ true → c ≡ d
same c d h = ground arith

-- White space in front of elements.
pub pad_items : Str → Items → Items
pad_items w (last_item a v b) = last_item (w ++ a) v b
pad_items w (item a v b items) = item (w ++ a) v b items

pub pad_items-AreItems :
    (depth : ℕ) (w : Str) (items : Items)
    → IsSpaces w
    → AreItems depth items
    → AreItems depth (pad_items w items)
unfolding pad_items
pad_items-AreItems depth w (last_item a v b) h k = (All-append _ w a h k.0, k.1, k.2)
pad_items-AreItems depth w (item a v b items) h k = (All-append _ w a h k.0, k.1, k.2, k.3)

pub items_before-pad :
    (w : Str) (items : Items) (rest : Str)
    → w ++ items_before items rest ≡ items_before (pad_items w items) rest
unfolding pad_items
items_before-pad w (last_item a v b) rest = sym (append_assoc w a _)
items_before-pad w (item a v b items) rest = sym (append_assoc w a _)

pub pad_members : Str → Members → Members
pad_members w (last_member a key b c v d) = last_member (w ++ a) key b c v d
pad_members w (member a key b c v d members) = member (w ++ a) key b c v d members

pub pad_members-AreMembers :
    (depth : ℕ) (w : Str) (members : Members)
    → IsSpaces w
    → AreMembers depth members
    → AreMembers depth (pad_members w members)
unfolding pad_members
pad_members-AreMembers depth w (last_member a key b c v d) h k =
    (All-append _ w a h k.0, k.1, k.2, k.3, k.4, k.5)
pad_members-AreMembers depth w (member a key b c v d members) h k =
    (All-append _ w a h k.0, k.1, k.2, k.3, k.4, k.5, k.6)

pub members_before-pad :
    (w : Str) (members : Members) (rest : Str)
    → w ++ members_before members rest ≡ members_before (pad_members w members) rest
unfolding pad_members
members_before-pad w (last_member a key b c v d) rest = sym (append_assoc w a _)
members_before-pad w (member a key b c v d members) rest = sym (append_assoc w a _)

-- What a loop over elements has passed over.
abbrev pub PassesItems : ℕ → (Str → Scan) → Type 0
PassesItems depth loop =
    (p rest : Str)
    → loop p ≡ ok rest
    → (items : Items) × AreItems (suc depth) items × (p ≡ items_before items rest)

abbrev pub PassesMembers : ℕ → (Str → Scan) → Type 0
PassesMembers depth loop =
    (p rest : Str)
    → loop p ≡ ok rest
    → (members : Members) × AreMembers (suc depth) members × (p ≡ members_before members rest)

abbrev pub PassesValue : ℕ → (Str → Scan) → Type 0
PassesValue depth scan =
    (p rest : Str)
    → scan p ≡ ok rest
    → (ws : Str) × (v : Value) × IsSpaces ws × IsValue depth v × (p ≡ ws ++ value_before v rest)

pub opened_cases :
    (close : ℕ) (loop : Str → Scan) (s rest : Str)
    → opened close loop s ≡ ok rest
    → (s ≡ close ∷ rest) ⊎ (loop s ≡ ok rest)
opened_cases close loop [] rest h = inr h
opened_cases close loop (c ∷ p) rest h = elim (Bool-cases (c == close)) [
  | inl e ↦
      let left : p ≡ rest = ground arith in
      inl (ap (λ d. d ∷ p) (same c close e) ∙ ap (λ t. close ∷ t) left)
  | inr n ↦ inr (rw n at h)
]

pub separated_cases :
    (close : ℕ) (e : JsonError) (loop : Str → Scan) (s rest : Str)
    → separated close e loop s ≡ ok rest
    → (s ≡ close ∷ rest) ⊎ ((p : Str) × (s ≡ b',' ∷ p) × (loop (syntax_ws p) ≡ ok rest))
separated_cases close e loop [] rest h = cc
separated_cases close e loop (c ∷ p) rest h = elim (Bool-cases (c == b',')) [
  | inl comma ↦ inr (p, ap (λ d. d ∷ p) (same c b',' comma), rw comma at h)
  | inr n ↦ elim (Bool-cases (c == close)) [
    | inl k ↦
        let left : p ≡ rest = ground arith in
        inl (ap (λ d. d ∷ p) (same c close k) ∙ ap (λ t. close ∷ t) left)
    | inr m ↦ ground arith
  ]
]

prefix-split : (s p : Str) → has_prefix s p ≡ true → s ≡ p ++ skip_bytes (length p) s
unfolding has_prefix
prefix-split s [] h = refl
prefix-split [] (y ∷ p) h = cc
prefix-split (x ∷ s) (y ∷ p) h =
    let tails : has_prefix s p ≡ true = ground arith in
    ap (λ d. d ∷ s) (same x y (ground arith)) ∙ ap (λ t. y ∷ t) (prefix-split s p tails)

spelled :
    (w : Word) (s rest : Str)
    → has_prefix s (word_text w) ≡ true
    → skip_bytes (length (word_text w)) s ≡ rest
    → s ≡ word_text w ++ rest
spelled w s rest h e = prefix-split s (word_text w) h ∙ ap (λ t. word_text w ++ t) e

pub syntax_word_sound :
    (s rest : Str) → syntax_word s ≡ ok rest → (w : Word) × (s ≡ word_text w ++ rest)
unfolding syntax_word
syntax_word_sound s rest h = elim (Bool-cases (has_prefix s (word_text word_true))) [
  | inl t ↦ (word_true, spelled word_true s rest t (ground arith))
  | inr n ↦ elim (Bool-cases (has_prefix s (word_text word_false))) [
    | inl f ↦ (word_false, spelled word_false s rest f (ground arith))
    | inr m ↦ elim (Bool-cases (has_prefix s (word_text word_null))) [
      | inl u ↦ (word_null, spelled word_null s rest u (ground arith))
      | inr k ↦ ground arith
    ]
  ]
]
