-- ===== src/Json/Exact.antt =====
-- What `dtg_json_validate_complete` of extension/remote/dstudio_json_tokens.h accepts.
use Prim.{tt}
use dstudio.Base.{
  ℕ, suc, ◌*◌, ◌≡◌, refl, sym, ap, ◌∙◌, subst, ◌↔◌, ◌⊎◌, inl, inr, true, false, not, ◌&&◌, [], ◌∷◌,
  ◌++◌, append-nil, Str, ◌==◌, length, arith, Bool-cases, ok, ◌>>=◌, >>=-eq-ok, err-ne-ok,
}
use dstudio.Json.{bad_first, ends_here, starts_with, syntax_value, syntax_ws, validate_complete}
use dstudio.Json.Complete.{syntax_value-before}
use dstudio.Json.Lengths.{Opens-IsSolid, value_before-Opens}
use dstudio.Json.Lexemes.{IsSolid, syntax_ws-before, syntax_ws-split}
use dstudio.Json.Digits.{IsEnd}
use dstudio.Json.Sound.{syntax_value_sound}
use dstudio.Json.Tree.{IsSpaces, IsValue, Value, value_before}

-- The byte `first` is not asked for, or the text starts with it.
abbrev pub IsAsked : ℕ → Str → Type 0
IsAsked first p = (first ≡ 0) ⊎ ((q : Str) × (p ≡ first ∷ q))

-- A single JSON value between white space, arrays and objects nested at most 64 deep.
pub record IsDocument (first : ℕ) (json : Str) : Type 0 where
  pub front : Str
  pub value : Value
  pub back : Str
  pub blank_front : IsSpaces front
  pub good : IsValue 0 value
  pub blank_back : IsSpaces back
  pub spelled : json ≡ front ++ value_before value back
  pub asked : IsAsked first (value_before value back)

at_end : (p : Str) → ends_here p ≡ ok tt → p ≡ []
unfolding ends_here
at_end [] h = refl
at_end (c ∷ p) h = cc

finished_sound : (s : Str) → ends_here (syntax_ws s) ≡ ok tt → IsSpaces s
finished_sound s h =
    let (ws, spaces, e, _) = syntax_ws-split s in
    subst IsSpaces (sym (e ∙ ap (λ t. ws ++ t) (at_end (syntax_ws s) h) ∙ append-nil ws)) spaces

spaces-ends_here : (s : Str) → IsSpaces s → ends_here (syntax_ws s) ≡ ok tt
unfolding ends_here
spaces-ends_here s blank =
    rw (ap syntax_ws (sym (append-nil s)) ∙ syntax_ws-before s [] blank tt) refl

spaces-IsEnd : (s : Str) → IsSpaces s → IsEnd s
spaces-IsEnd [] blank = tt
spaces-IsEnd (c ∷ s) blank = let space = blank.0 in ground arith

asked_sound :
    (first : ℕ) (p : Str)
    → (not (first == 0) && not (starts_with first p)) ≡ false
    → IsAsked first p
unfolding starts_with
asked_sound first p h = elim (Bool-cases (first == 0)) [
  | inl z ↦ inl (ground arith)
  | inr n ↦ inr (begins p (ground arith))
]
  where
    begins : (p : Str) → starts_with first p ≡ true → (q : Str) × (p ≡ first ∷ q)
    begins [] e = cc
    begins (c ∷ q) e = (q, ap (λ d. d ∷ q) (ground arith))

asked_complete :
    (first : ℕ) (p : Str)
    → IsAsked first p
    → (not (first == 0) && not (starts_with first p)) ≡ false
unfolding starts_with
asked_complete first p (inl z) = ground arith
asked_complete first p (inr (q, e)) = rw e (ground arith)

solid_front : (ws s p : Str) → IsSpaces ws → IsSolid p → p ≡ ws ++ s → p ≡ s
solid_front [] s p blank solid e = e
solid_front (c ∷ ws) s p blank solid e = cc (sym (blank.0) ∙ subst IsSolid e solid)

value-IsDocument :
    (first : ℕ) (json : Str) (fuel : ℕ)
    → IsAsked first (syntax_ws json)
    → (syntax_value fuel 0 (syntax_ws json) >>= (λ q. ends_here (syntax_ws q))) ≡ ok tt
    → IsDocument first json
value-IsDocument first json fuel asked h =
    let (front, blank, e, solid) = syntax_ws-split json in
    let (q, hv, hf) = >>=-eq-ok (syntax_value fuel 0 (syntax_ws json)) _ h in
    let (ws, v, none_there, good, ev) = syntax_value_sound fuel 0 (syntax_ws json) q hv in
    let text = solid_front ws (value_before v q) (syntax_ws json) none_there solid ev in
    record {
      front = front;
      value = v;
      back = q;
      blank_front = blank;
      good = good;
      blank_back = finished_sound q hf;
      spelled = e ∙ ap (λ t. front ++ t) text;
      asked = subst (IsAsked first) text asked;
    }

accepts : (first : ℕ) (json : Str) → validate_complete first json ≡ ok tt → IsDocument first json
unfolding validate_complete
accepts first json h =
    elim (Bool-cases (not (first == 0) && not (starts_with first (syntax_ws json)))) [
      | inl other ↦ absurd (err-ne-ok bad_first tt (rw other at h))
      | inr asked ↦
          value-IsDocument first json (suc (2 * length (syntax_ws json)))
            (asked_sound first (syntax_ws json) asked) (rw asked at h)
    ]

accepted : (first : ℕ) (json : Str) → IsDocument first json → validate_complete first json ≡ ok tt
unfolding validate_complete
accepted first json d =
    let text = value_before d.value d.back in
    let solid = Opens-IsSolid text (value_before-Opens 0 d.value d.back d.good) in
    let skipped = ap syntax_ws d.spelled ∙ syntax_ws-before d.front text d.blank_front solid in
    let read =
      syntax_value-before d.value (suc (2 * length text)) 0 [] d.back d.good tt
        (spaces-IsEnd d.back d.blank_back) (omega arith) in
    rw skipped
      (rw (asked_complete first text d.asked) (rw read (spaces-ends_here d.back d.blank_back)))

-- The check accepts a text exactly when it is one JSON value between white space, with arrays and
-- objects nested at most 64 deep, and starts with the byte that is asked for, if one is.
pub validate_complete_iff :
    (first : ℕ) (json : Str) → (validate_complete first json ≡ ok tt) ↔ IsDocument first json
validate_complete_iff first json = (accepts first json, accepted first json)
