-- ===== src/Patch/Heads.antt =====
-- What `unified_candidate` of src/dstudio_unified_patch.c reads of the line that heads a hunk.
use dstudio.Base.{
  ℕ, ◌+◌, ◌-◌, ◌*◌, ◌≡◌, refl, sym, ap, ◌∙◌, subst, false, [], ◌∷◌, ◌++◌, append_assoc, some, Str,
  codes, is_digit, ◌==◌, All, All-append, arith, Bool-cases, inl, inr,
}
use dstudio.Patch.Hunks.{
  Range, behind_prefix, digits_value, hunk_range, range_count, take_line, unified_number,
  unified_range,
}
use dstudio.Patch.Lines.{>>=-eq-some, IsLine, behind_prefix_sound, cons-IsLine, take_line_sound}

abbrev NoNewline : ℕ → Type 0
NoNewline c = (c == b'\n') ≡ false

-- What stands between two places of the patch, with no newline.
abbrev Passes : Str → Str → Type 0
Passes p rest = (front : Str) × All NoNewline front × (p ≡ front ++ rest)

Passes-trans : {p q r : Str} → Passes p q → Passes q r → Passes p r
Passes-trans {r = r} (a, ha, ea) (b, hb, eb) =
    (a ++ b, All-append NoNewline a b ha hb, ea ∙ ap (λ t. a ++ t) eb ∙ sym (append_assoc a b r))

digits_value-Passes : (n : ℕ) (p : Str) → Passes p (digits_value n p).1
unfolding digits_value
digits_value-Passes n [] = ([], tt, refl)
digits_value-Passes n (c ∷ p) = elim (Bool-cases (is_digit c)) [
  | inl digit ↦
      let (front, clean, e) = digits_value-Passes (n * 10 + (c - b'0')) p in
      (c ∷ front, (ground arith, clean), rw digit (ap (λ t. c ∷ t) e))
  | inr other ↦ ([], tt, rw other refl)
]

unified_number-Passes :
    (p : Str) {n : ℕ} {rest : Str} → unified_number p ≡ some (n, rest) → Passes p rest
unfolding unified_number
unified_number-Passes [] h = cc
unified_number-Passes (c ∷ p) {n} {rest} h =
    let left : (digits_value 0 (c ∷ p)).1 ≡ rest = ground arith in
    subst (Passes (c ∷ p)) left (digits_value-Passes 0 (c ∷ p))

range_count-Passes : (p : Str) {n : ℕ} {rest : Str} → range_count p ≡ some (n, rest) → Passes p rest
unfolding range_count
range_count-Passes [] {n} {rest} h = ([], tt, ground arith)
range_count-Passes (c ∷ p) {n} {rest} h = elim (Bool-cases (c == b',')) [
  | inl comma ↦
      let (front, clean, e) = unified_number-Passes p (rw comma at h) in
      (c ∷ front, (ground arith, clean), ap (λ t. c ∷ t) e)
  | inr other ↦ ([], tt, ground arith)
]

unified_range-Passes :
    (p : Str) {start count : ℕ} {rest : Str}
    → unified_range p ≡ some (start, count, rest)
    → Passes p rest
unfolding unified_range
unified_range-Passes p {start} {count} {rest} h =
    let ((s, q), hs, h') = >>=-eq-some (unified_number p) _ h in
    let ((c, r), hc, h'') = >>=-eq-some (range_count q) _ h' in
    let left : r ≡ rest = ground arith in
    subst (Passes p) left (Passes-trans (unified_number-Passes p hs) (range_count-Passes q hc))

IsLine-front : (front line : Str) → All NoNewline front → IsLine line → IsLine (front ++ line)
IsLine-front [] line clean h = h
IsLine-front (c ∷ front) line clean h =
    cons-IsLine c (front ++ line) clean.0 (IsLine-front front line clean.1 h)

prefix-Passes :
    (prefix p : Str) {rest : Str}
    → All NoNewline prefix
    → behind_prefix prefix p ≡ some rest
    → Passes p rest
prefix-Passes prefix p clean h = (prefix, clean, behind_prefix_sound prefix p h)

-- A hunk is headed by one line.
pub hunk_range_sound :
    (p : Str) {r : Range} {rest : Str}
    → hunk_range p ≡ some (r, rest)
    → (head : Str) × IsLine head × (p ≡ head ++ rest)
unfolding hunk_range
hunk_range_sound p {r} {rest} h =
    let (q₁, h₁, k₁) = >>=-eq-some (behind_prefix (codes "@@ -") p) _ h in
    let ((s₂, c₂, q₂), h₂, k₂) = >>=-eq-some (unified_range q₁) _ k₁ in
    let (q₃, h₃, k₃) = >>=-eq-some (behind_prefix (codes " +") q₂) _ k₂ in
    let ((s₄, c₄, q₄), h₄, k₄) = >>=-eq-some (unified_range q₃) _ k₃ in
    let (q₅, h₅, k₅) = >>=-eq-some (behind_prefix (codes " @@") q₄) _ k₄ in
    let ((heading, q₆), h₆, k₆) = >>=-eq-some (take_line q₅) _ k₅ in
    let left : q₆ ≡ rest = ground arith in
    let (split, is_line) = take_line_sound q₅ h₆ in
    let (front, clean, e) =
      Passes-trans (prefix-Passes (codes "@@ -") p (refl, (refl, (refl, (refl, tt)))) h₁) (
        Passes-trans (unified_range-Passes q₁ h₂) (
          Passes-trans (prefix-Passes (codes " +") q₂ (refl, (refl, tt)) h₃) (
            Passes-trans (unified_range-Passes q₃ h₄)
              (prefix-Passes (codes " @@") q₄ (refl, (refl, (refl, tt))) h₅)))) in
    (
      front ++ heading,
      IsLine-front front heading clean is_line,
      e
          ∙ ap (λ t. front ++ t) (split ∙ ap (λ t. heading ++ t) left)
          ∙ sym (append_assoc front heading rest),
    )
