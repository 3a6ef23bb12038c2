-- ===== src/Patch/Places.antt =====
-- Where `unified_candidate` of src/dstudio_unified_patch.c finds the old text of a hunk.
use dstudio.Base.{
  ℕ, zero, suc, ◌+◌, ◌<◌, ◌≡◌, refl, sym, ap, ◌∙◌, subst, Bool, true, false, ◌&&◌, [], ◌∷◌, Option,
  none, some, Str, has_prefix, ltb, ◌-◌, ◌==◌, arith, Bool-cases, inl, inr,
}
use dstudio.Patch.{without_duplicate, drop, is_newline, line_match, only_match}
use dstudio.Patch.Lines.{>>=-eq-some}

-- A line of the text starts at `k` with `needle`; the flag tells whether one starts at 0.
abbrev pub occurs : Bool → Str → Str → ℕ → Bool
occurs bol [] needle k = false
occurs bol (c ∷ s) needle zero = bol && has_prefix (c ∷ s) needle
occurs bol (c ∷ s) needle (suc k) = occurs (c == b'\n') s needle k

line_match-none :
    (bol : Bool) (i : ℕ) (needle s : Str) (k : ℕ)
    → line_match bol i needle s ≡ none
    → occurs bol s needle k ≡ false
unfolding line_match
line_match-none bol i needle [] k h = refl
line_match-none bol i needle (c ∷ s) zero h = ground arith
line_match-none bol i needle (c ∷ s) (suc k) h =
    let rest : line_match (c == b'\n') (suc i) needle s ≡ none = ground arith in
    line_match-none (c == b'\n') (suc i) needle s k rest

line_match-some :
    (bol : Bool) (i : ℕ) (needle s : Str) {place : ℕ}
    → line_match bol i needle s ≡ some place
    → (j : ℕ) × (place ≡ i + j)
      × (occurs bol s needle j ≡ true)
      × ((k : ℕ) → k < j → occurs bol s needle k ≡ false)
unfolding line_match
line_match-some bol i needle [] h = cc
line_match-some bol i needle (c ∷ s) {place} h =
    elim (Bool-cases (bol && has_prefix (c ∷ s) needle)) [
      | inl hit ↦ (0, ground arith, hit, λ k low. elim low [ ])
      | inr miss ↦
          let rest : line_match (c == b'\n') (suc i) needle s ≡ some place = ground arith in
          let (j, e, found, first) = line_match-some (c == b'\n') (suc i) needle s rest in
          (suc j, omega arith, found, before_suc miss first)
    ]
  where
    before_suc :
        {j : ℕ}
        → (bol && has_prefix (c ∷ s) needle) ≡ false
        → ((k : ℕ) → k < j → occurs (c == b'\n') s needle k ≡ false)
        → (k : ℕ) → k < suc j
        → occurs bol (c ∷ s) needle k ≡ false
    before_suc miss first zero low = miss
    before_suc miss first (suc k) low = first k (omega arith)

-- The occurrences behind a place.
occurs-behind :
    (bol : Bool) (s needle : Str) (place k : ℕ)
    → occurs (is_newline (drop place s)) (drop (suc place) s) needle k
      ≡ occurs bol s needle (suc place + k)
unfolding drop
occurs-behind bol [] needle zero k = refl
occurs-behind bol [] needle (suc place) k = refl
occurs-behind bol (c ∷ s) needle zero k =
    let index : suc k ≡ suc zero + k = omega arith in ap (occurs bol (c ∷ s) needle) index
occurs-behind bol (c ∷ s) needle (suc place) k =
    let index : suc (suc place + k) ≡ suc (suc place) + k = omega arith in
    occurs-behind (c == b'\n') s needle place k ∙ ap (occurs bol (c ∷ s) needle) index

-- The old text stands at the start of a line at this place and at no other.
pub record IsOnly (source needle : Str) (place : ℕ) : Type 0 where
  pub there : occurs true source needle place ≡ true
  pub nowhere_else : (k : ℕ) → occurs true source needle k ≡ true → k ≡ place

without_duplicate_sound :
    (m : ℕ) (o : Option ℕ) {place : ℕ}
    → without_duplicate m o ≡ some place
    → (o ≡ none) × (m ≡ place)
without_duplicate_sound m none h = (refl, ground arith)
without_duplicate_sound m (some d) h = cc

pub only_match-IsOnly :
    (source needle : Str) {place : ℕ}
    → only_match source needle ≡ some place
    → IsOnly source needle place
unfolding only_match
only_match-IsOnly source needle {place} h =
    let (m, first, h') = >>=-eq-some (line_match true 0 needle source) _ h in
    let (j, start, found, before) = line_match-some true 0 needle source first in
    let (none_behind, same) =
      without_duplicate_sound m
        (line_match (is_newline (drop m source)) (suc m) needle (drop (suc m) source)) h' in
    let index : j ≡ place = omega arith in
    let index' : m ≡ j = omega arith in
    let behind = λ (k : ℕ).
      sym (occurs-behind true source needle m k)
      ∙ line_match-none (is_newline (drop m source)) (suc m) needle (drop (suc m) source) k
          none_behind in
    subst (IsOnly source needle) index (record {
      there = found;
      nowhere_else = λ k here.
          elsewhere k here (λ low. cc (before k low))
            (λ high.
              let past : k ≡ suc m + (k - suc m) = omega arith in
              cc (behind (k - suc m), ap (occurs true source needle) past));
    })
  where
    elsewhere :
        {j : ℕ} (k : ℕ) → occurs true source needle k ≡ true → (k < j → ⊥) → (j < k → ⊥) → k ≡ j
    elsewhere {j} k here low high = elim (Bool-cases (ltb k j)) [
      | inl l ↦ absurd (low (ground arith))
      | inr n ↦ elim (Bool-cases (ltb j k)) [
        | inl g ↦ absurd (high (ground arith))
        | inr m ↦ ground arith
      ]
    ]
