-- ===== src/Patch/Lines.antt =====
-- What `unified_candidate` of src/dstudio_unified_patch.c reads of a patch: hunks of lines.
use dstudio.Base.{
  ℕ, zero, suc, ◌≡◌, refl, sym, ap, ap₂, subst, ==_iff, ◌∙◌, false, ◌&&◌, List, [], ◌∷◌, ◌++◌,
  append-nil, append_assoc, Option, none, some, Str, ◌==◌, All, arith, Bool-cases, inl, inr,
}
use dstudio.Patch.Hunks.{
  kept, cut, added, ◌>>=◌, Body, Kind, behind_prefix, hunk_line, hunk_lines, line_kind, put_after,
  put_before, put_line, take_line, unified_put,
}

pub >>=-eq-some {ℓ κ} :
    {A : Type ℓ} {B : Type κ} (m : Option A) (f : A → Option B) {b : B}
    → (m >>= f) ≡ some b
    → (a : A) × (m ≡ some a) × (f a ≡ some b)
>>=-eq-some none f h = cc
>>=-eq-some (some a) f h = (a, refl, h)

-- A line of a hunk, with its newline.
pub record Line : Type 0 where
  pub kind : Kind
  pub text : Str

abbrev pub prefix_of : Kind → ℕ
prefix_of kept = b' '
prefix_of cut = b'-'
prefix_of added = b'+'

abbrev pub old_part : Kind → Str → Str
old_part kept t = t
old_part cut t = t
old_part added t = []

abbrev pub new_part : Kind → Str → Str
new_part kept t = t
new_part cut t = []
new_part added t = t

-- The text of the lines in the patch, and the texts that they take away and bring.
unfoldable pub spelled : List Line → Str
spelled [] = []
spelled (l ∷ lines) = prefix_of l.kind ∷ (l.text ++ spelled lines)

unfoldable pub old_text : List Line → Str
old_text [] = []
old_text (l ∷ lines) = old_part l.kind l.text ++ old_text lines

unfoldable pub new_text : List Line → Str
new_text [] = []
new_text (l ∷ lines) = new_part l.kind l.text ++ new_text lines

-- No newline but the one at the end.
abbrev pub IsLine : Str → Type 0
IsLine [] = ⊥
IsLine (c ∷ []) = c ≡ b'\n'
IsLine (c ∷ d ∷ s) = ((c == b'\n') ≡ false) × IsLine (d ∷ s)

pub behind_prefix_sound :
    (prefix p : Str) {rest : Str} → behind_prefix prefix p ≡ some rest → p ≡ prefix ++ rest
unfolding behind_prefix
behind_prefix_sound [] p h = ground arith
behind_prefix_sound (x ∷ prefix) [] h = cc
behind_prefix_sound (x ∷ prefix) (y ∷ p) {rest} h =
    let first : y ≡ x = ground arith in
    let others : behind_prefix prefix p ≡ some rest = ground arith in
    ap₂ ◌∷◌ first (behind_prefix_sound prefix p others)

pub unified_put_sound : (b t : Str) {s : Str} → unified_put b t ≡ some s → s ≡ b ++ t
unfolding unified_put
unified_put_sound b t h = ground arith

pub cons-IsLine : (c : ℕ) (line : Str) → (c == b'\n') ≡ false → IsLine line → IsLine (c ∷ line)
cons-IsLine c [] n h = absurd h
cons-IsLine c (d ∷ line) n h = (n, h)

pub take_line_sound :
    (p : Str) {line rest : Str} → take_line p ≡ some (line, rest) → (p ≡ line ++ rest) × IsLine line
unfolding take_line
take_line_sound [] h = cc
take_line_sound (c ∷ p) {line} {rest} h = elim (Bool-cases (c == b'\n')) [
  | inl end ↦
      let left : p ≡ rest = ground arith in
      let whole : c ∷ [] ≡ line = ground arith in
      (
        ap (λ t. c ∷ t) left ∙ ap (λ l. l ++ rest) whole,
        subst IsLine whole ((==_iff c b'\n').0 end),
      )
  | inr n ↦
      let ((l, q), found, e) = >>=-eq-some (take_line p) _ (rw n at h) in
      let (split, is_line) = take_line_sound p found in
      let whole : c ∷ l ≡ line = ground arith in
      let left : q ≡ rest = ground arith in
      (
        ap (λ t. c ∷ t) split ∙ ap₂ (λ a b. a ++ b) whole left,
        subst IsLine whole (cons-IsLine c l n is_line),
      )
]

line_kind_sound : (c : ℕ) (kind : Kind) → line_kind c ≡ some kind → c ≡ prefix_of kind
unfolding line_kind
line_kind_sound c kept h = ground arith
line_kind_sound c cut h = ground arith
line_kind_sound c added h = ground arith

put_line_sound :
    (kind : Kind) (old new : ℕ) (b : Body) (t : Str) {old' new' : ℕ} {b' : Body}
    → put_line kind old new b t ≡ some (old', new', b')
    → (b'.before ≡ b.before ++ old_part kind t) × (b'.after ≡ b.after ++ new_part kind t)
unfolding put_line put_before put_after unified_put
put_line_sound kept old new b t h = (ground arith, ground arith)
put_line_sound cut old new b t h = (ground arith, ground (arith, append-nil b.after))
put_line_sound added old new b t h = (ground (arith, append-nil b.before), ground arith)

hunk_line_sound :
    (p : Str) {kind : Kind} {line rest : Str}
    → hunk_line p ≡ some (kind, line, rest)
    → (p ≡ prefix_of kind ∷ (line ++ rest)) × IsLine line
unfolding hunk_line
hunk_line_sound [] h = cc
hunk_line_sound (c ∷ p) {kind} {line} {rest} h =
    let (k, hk, h') = >>=-eq-some (line_kind c) _ h in
    let ((l, q), found, e) = >>=-eq-some (take_line p) _ h' in
    let (split, is_line) = take_line_sound p found in
    let same_kind : k ≡ kind = ground arith in
    let whole : l ≡ line = ground arith in
    let left : q ≡ rest = ground arith in
    (
      ap₂ ◌∷◌ (line_kind_sound c k hk ∙ ap prefix_of same_kind)
          (split ∙ ap₂ (λ a b. a ++ b) whole left),
      subst IsLine whole is_line,
    )

-- The lines that were read bring the texts from those of `b` to those of `b'`.
pub record IsRead (b b' : Body) (p rest : Str) : Type 0 where
  pub lines : List Line
  pub are_lines : All (λ l. IsLine l.text) lines
  pub in_patch : p ≡ spelled lines ++ rest
  pub olds : b'.before ≡ b.before ++ old_text lines
  pub news : b'.after ≡ b.after ++ new_text lines

IsRead-refl : (b : Body) (p : Str) → IsRead b b p p
unfolding spelled old_text new_text
IsRead-refl b p = record {
  lines = [];
  are_lines = tt;
  in_patch = refl;
  olds = sym (append-nil b.before);
  news = sym (append-nil b.after);
}

IsRead-cons :
    (b b₁ b' : Body) (p rest : Str) (kind : Kind) (line q : Str)
    → (p ≡ prefix_of kind ∷ (line ++ q)) × IsLine line
    → (b₁.before ≡ b.before ++ old_part kind line) × (b₁.after ≡ b.after ++ new_part kind line)
    → IsRead b₁ b' q rest
    → IsRead b b' p rest
unfolding spelled old_text new_text
IsRead-cons b b₁ b' p rest kind line q first put more = record {
  lines = record { kind = kind; text = line } ∷ more.lines;
  are_lines = (first.1, more.are_lines);
  in_patch =
      first.0
      ∙ ap (λ t. prefix_of kind ∷ t)
          (ap (λ t. line ++ t) more.in_patch ∙ sym (append_assoc line (spelled more.lines) rest));
  olds =
      more.olds
      ∙ ap (λ t. t ++ old_text more.lines) put.0
      ∙ append_assoc b.before (old_part kind line) (old_text more.lines);
  news =
      more.news
      ∙ ap (λ t. t ++ new_text more.lines) put.1
      ∙ append_assoc b.after (new_part kind line) (new_text more.lines);
}

pub hunk_lines_sound :
    (fuel old new : ℕ) (b : Body) (p : Str) {b' : Body} {rest : Str}
    → hunk_lines fuel old new b p ≡ some (b', rest)
    → IsRead b b' p rest
unfolding hunk_lines
hunk_lines_sound zero old new b p {b'} {rest} h =
    let same_body : b ≡ b' = ground arith in
    let left : p ≡ rest = ground arith in
    subst (λ c. IsRead b c p rest) same_body (subst (IsRead b b p) left (IsRead-refl b p))
hunk_lines_sound (suc fuel) old new b p {b'} {rest} h = elim (Bool-cases (old == 0 && new == 0)) [
  | inl done ↦
      let same_body : b ≡ b' = ground arith in
      let left : p ≡ rest = ground arith in
      subst (λ c. IsRead b c p rest) same_body (subst (IsRead b b p) left (IsRead-refl b p))
  | inr more ↦
      let ((kind, line, q), found, h') = >>=-eq-some (hunk_line p) _ (rw more at h) in
      let ((old', new', b₁), put, h'') = >>=-eq-some (put_line kind old new b line) _ h' in
      IsRead-cons b b₁ b' p rest kind line q (hunk_line_sound p found)
        (put_line_sound kind old new b line put) (hunk_lines_sound fuel old' new' b₁ q h'')
]
