-- ===== src/Patch/Applied.antt =====
-- What `unified_candidate` of src/dstudio_unified_patch.c makes of a source and a patch.
use dstudio.Base.{
  ℕ, zero, suc, ◌+◌, ◌-◌, ◌≤◌, ◌≡◌, ◌≢◌, refl, sym, ap, ap₂, ◌∙◌, subst, Bool, true, List, [], ◌∷◌,
  ◌++◌, append_assoc, some, Str, has_prefix, ◌==◌, length, All, arith,
}
use dstudio.Patch.{
  apply_hunks, drop, file_header, max_hunks, no_body, only_match, put_hunk, take, take_hunk,
  unified_candidate,
}
use dstudio.Patch.Hunks.{◌>>=◌, Body, behind_prefix, hunk_lines, hunk_range, unified_put, Range}
use dstudio.Patch.Heads.{hunk_range_sound}
use dstudio.Patch.Lines.{
  >>=-eq-some, IsLine, IsRead, Line, behind_prefix_sound, hunk_lines_sound, new_text, old_text,
  spelled, unified_put_sound,
}
use dstudio.Patch.Places.{IsOnly, occurs, only_match-IsOnly}

-- The hunks `p` of a patch take the source from `cursor` on to `out`. Each hunk is a head and lines,
-- and its old text stands at the start of a line of the source at one place only, not before
-- `cursor`. What stands in front of the place stays, the new text is put for the old one, and the
-- hunks that follow go on behind it.
pub data Applied (source : Str) : ℕ → Str → Str → Type 0 where
  done :
      (cursor : ℕ) (p out : Str) → p ≡ [] → out ≡ drop cursor source → Applied source cursor p out
  hunk :
      (cursor : ℕ) (p out head rest same more : Str) (lines : List Line) (place : ℕ)
      → IsLine head
      → All (λ l. IsLine l.text) lines
      → p ≡ head ++ (spelled lines ++ rest)
      → cursor ≤ place
      → IsOnly source (old_text lines) place
      → drop cursor source
        ≡ same ++ (old_text lines ++ drop (place + length (old_text lines)) source)
      → out ≡ same ++ (new_text lines ++ more)
      → Applied source (place + length (old_text lines)) rest more
      → Applied source cursor p out

prefix_front : (s needle : Str) → has_prefix s needle ≡ true → s ≡ needle ++ drop (length needle) s
unfolding has_prefix drop
prefix_front s [] h = refl
prefix_front [] (y ∷ needle) h = cc
prefix_front (x ∷ s) (y ∷ needle) h =
    let first : x ≡ y = ground arith in
    let others : has_prefix s needle ≡ true = ground arith in
    ap₂ ◌∷◌ first (prefix_front s needle others)

drop-drop : (a b : ℕ) (s : Str) → drop b (drop a s) ≡ drop (a + b) s
unfolding drop
drop-drop zero b s = let index : b ≡ zero + b = omega arith in ap (λ n. drop n s) index
drop-drop (suc a) zero [] =
    let index : suc (a + 0) ≡ suc a + 0 = omega arith in ap (λ n. drop n []) index
drop-drop (suc a) (suc b) [] =
    let index : suc (a + suc b) ≡ suc a + suc b = omega arith in ap (λ n. drop n []) index
drop-drop (suc a) b (c ∷ s) =
    let index : suc (a + b) ≡ suc a + b = omega arith in
    drop-drop a b s ∙ ap (λ n. drop n (c ∷ s)) index

take-drop : (n : ℕ) (s : Str) → s ≡ take n s ++ drop n s
unfolding take drop
take-drop zero s = refl
take-drop (suc n) [] = refl
take-drop (suc n) (c ∷ s) = ap (λ t. c ∷ t) (take-drop n s)

occurs-has_prefix :
    (bol : Bool) (s needle : Str) (k : ℕ)
    → occurs bol s needle k ≡ true
    → has_prefix (drop k s) needle ≡ true
unfolding drop
occurs-has_prefix bol [] needle k h = cc
occurs-has_prefix bol (c ∷ s) needle zero h = ground arith
occurs-has_prefix bol (c ∷ s) needle (suc k) h = occurs-has_prefix (c == b'\n') s needle k h

source_split :
    (source needle : Str) (cursor place : ℕ)
    → cursor ≤ place
    → IsOnly source needle place
    → drop cursor source
      ≡ take (place - cursor) (drop cursor source)
        ++ (needle ++ drop (place + length needle) source)
source_split source needle cursor place le only =
    let index : cursor + (place - cursor) ≡ place = omega arith in
    let there = occurs-has_prefix true source needle place only.there in
    take-drop (place - cursor) (drop cursor source)
    ∙ ap (λ t. take (place - cursor) (drop cursor source) ++ t)
        (drop-drop cursor (place - cursor) source
          ∙ ap (λ n. drop n source) index
          ∙ prefix_front (drop place source) needle there
          ∙ ap (λ t. needle ++ t) (drop-drop place (length needle) source))

put_hunk_sound :
    (source : Str) (cursor : ℕ) (output : Str) (b : Body) (place : ℕ) {out : Str}
    → put_hunk source cursor output b place ≡ some out
    → out ≡ output ++ (take (place - cursor) (drop cursor source) ++ b.after)
unfolding put_hunk
put_hunk_sound source cursor output b place h =
    let same = take (place - cursor) (drop cursor source) in
    let (front, h₁, h₂) = >>=-eq-some (unified_put output same) _ h in
    unified_put_sound front b.after h₂
    ∙ ap (λ t. t ++ b.after) (unified_put_sound output same h₁)
    ∙ append_assoc output same b.after

-- A hunk that is accepted.
record IsHunk (source : Str) (cursor : ℕ) (p : Str) (b : Body) (place : ℕ) (rest : Str)
    : Type 0 where
  head : Str
  is_head : IsLine head
  behind : Str
  headed : p ≡ head ++ behind
  read : IsRead no_body b behind rest
  onwards : cursor ≤ place
  only : IsOnly source b.before place

take_hunk-IsHunk :
    (source : Str) (old_end new_end cursor : ℕ) (p : Str) {r : Range} {b : Body} {place : ℕ}
    {rest : Str}
    → take_hunk source old_end new_end cursor p ≡ some (r, b, place, rest)
    → IsHunk source cursor p b place rest
unfolding take_hunk
take_hunk-IsHunk source old_end new_end cursor p {r} {b} {place} {rest} h =
    let ((r', q), h₁, k₁) = >>=-eq-some (hunk_range p) _ h in
    let ((b', rest'), h₂, k₂) =
      >>=-eq-some (hunk_lines (r'.old_count + r'.new_count) r'.old_count r'.new_count no_body q) _
        k₁ in
    let (place', h₃, k₃) = >>=-eq-some (only_match source b'.before) _ k₂ in
    let (head, is_head, headed) = hunk_range_sound p h₁ in
    let same_body : b' ≡ b = ground arith in
    let same_rest : rest' ≡ rest = ground arith in
    let same_place : place' ≡ place = ground arith in
    let forward : cursor ≤ place' = ground arith in
    record {
      head = head;
      is_head = is_head;
      behind = q;
      headed = headed;
      read =
          subst (λ t. IsRead no_body b q t) same_rest
            (subst (λ c. IsRead no_body c q rest') same_body
              (hunk_lines_sound (r'.old_count + r'.new_count) r'.old_count r'.new_count no_body q
                h₂));
      onwards = omega arith;
      only = subst (IsOnly source b.before) same_place (
          subst (λ c. IsOnly source c.before place') same_body
            (only_match-IsOnly source b'.before h₃));
    }

apply_hunk :
    (source : Str) (cursor : ℕ) (p : Str) (b : Body) (place : ℕ) (rest more : Str)
    → IsHunk source cursor p b place rest
    → Applied source (place + length b.before) rest more
    → Applied source cursor p (take (place - cursor) (drop cursor source) ++ (b.after ++ more))
apply_hunk source cursor p b place rest more h next =
    let read = h.read in
    let olds = read.olds in
    let only = subst (λ t. IsOnly source t place) olds h.only in
    hunk cursor p _ h.head rest (take (place - cursor) (drop cursor source)) more read.lines place
      h.is_head read.are_lines (h.headed ∙ ap (λ t. h.head ++ t) read.in_patch) h.onwards only
      (source_split source (old_text read.lines) cursor place h.onwards only)
      (ap (λ t. take (place - cursor) (drop cursor source) ++ (t ++ more)) read.news)
      (subst (λ t. Applied source (place + length t) rest more) olds next)

apply_hunks_sound :
    (source : Str) (left old_end new_end cursor : ℕ) (output p : Str) {out : Str}
    → apply_hunks source left old_end new_end cursor output p ≡ some out
    → (more : Str) × (out ≡ output ++ more) × Applied source cursor p more
unfolding apply_hunks
apply_hunks_sound source left old_end new_end cursor output [] {out} h =
    let kept : unified_put output (drop cursor source) ≡ some out = ground arith in
    (
      drop cursor source,
      unified_put_sound output (drop cursor source) kept,
      done cursor [] (drop cursor source) refl refl,
    )
apply_hunks_sound source zero old_end new_end cursor output (c ∷ p) h = cc
apply_hunks_sound source (suc left) old_end new_end cursor output (c ∷ p) h =
    let ((r, b, place, rest), h₁, k₁) =
      >>=-eq-some (take_hunk source old_end new_end cursor (c ∷ p)) _ h in
    let (put, h₂, k₂) = >>=-eq-some (put_hunk source cursor output b place) _ k₁ in
    let (more, e, next) =
      apply_hunks_sound source left (r.old_start + r.old_count) (r.new_start + r.new_count)
        (place + length b.before) put rest k₂ in
    let same = take (place - cursor) (drop cursor source) in
    (
      same ++ (b.after ++ more),
      e
          ∙ ap (λ t. t ++ more) (put_hunk_sound source cursor output b place h₂)
          ∙ append_assoc output (same ++ b.after) more
          ∙ ap (λ t. output ++ t) (append_assoc same b.after more),
      apply_hunk source cursor (c ∷ p) b place rest more
          (take_hunk-IsHunk source old_end new_end cursor (c ∷ p) h₁) next,
    )

some_hunks :
    (source p : Str) {out : Str} → apply_hunks source max_hunks 0 0 0 [] p ≡ some out → p ≢ []
unfolding apply_hunks
some_hunks source [] e = λ _. cc
some_hunks source (c ∷ p) e = λ x. cc

-- A candidate is the source with each hunk of the patch applied, at the one place in the source
-- where its old text starts a line, and from front to back; the patch is nothing but the two lines
-- that name the file and the hunks, and has one hunk at least.
pub unified_candidate-Applied :
    (source patch name : Str) {out : Str}
    → unified_candidate source patch name ≡ some out
    → (hunks : Str) × (patch ≡ file_header name ++ hunks)
      × (hunks ≢ [])
      × Applied source 0 hunks out
unfolding unified_candidate
unified_candidate-Applied source patch name {out} h =
    let tried : (behind_prefix (file_header name) patch
          >>= (λ p. apply_hunks source max_hunks 0 0 0 [] p))
        ≡ some out =
      ground arith in
    let (hunks, h₁, h₂) = >>=-eq-some (behind_prefix (file_header name) patch) _ tried in
    let (more, e, applied) = apply_hunks_sound source max_hunks 0 0 0 [] hunks h₂ in
    (
      hunks,
      behind_prefix_sound (file_header name) patch h₁,
      some_hunks source hunks h₂,
      subst (Applied source 0 hunks) (sym e) applied,
    )
