-- ===== src/Patch.antt =====
-- Unified patches of one file: `unified_candidate` and its helpers, and `patch_apply_unified`, of
-- src/dstudio_unified_patch.c. Sources and patches hold no NUL, so that their sizes are their
-- lengths; `none` stands for `goto fail`.
pub mod Hunks
pub mod Lines
pub mod Heads
pub mod Places
pub mod Applied
pub mod Agreed
use dstudio.Base.{
  ℕ, zero, suc, ◌+◌, ◌-◌, ◌*◌, Bool, true, false, not, ◌&&◌, ◌||◌, List, [], ◌∷◌, ◌++◌, Option,
  none, some, Str, codes, str_eq, is_empty, is_digit, if◌then◌else◌, ◌==◌, ltb, leb, length,
  has_prefix, Outcome, ok, err,
}
use dstudio.Patch.Hunks.{
  Body, Kind, Range, behind_prefix, digits_value, hunk_line, hunk_lines, hunk_range, line_kind,
  put_after, put_before, put_line, range_count, take_line, text_limit, unified_number, unified_put,
  unified_range, ◌>>=◌,
}

-- The first place at or behind `i` where a line starts with `needle`; the flag tells whether a line
-- starts at `i`. So `strstr` finds it, called again where no line starts.
unfoldable pub line_match : Bool → ℕ → Str → Str → Option ℕ
line_match bol i needle [] = none
line_match bol i needle (c ∷ s) =
    if bol && has_prefix (c ∷ s) needle then some i else line_match (c == b'\n') (suc i) needle s

unfoldable pub drop : ℕ → Str → Str
drop zero s = s
drop (suc n) [] = []
drop (suc n) (c ∷ s) = drop n s

unfoldable pub take : ℕ → Str → Str
take zero s = []
take (suc n) [] = []
take (suc n) (c ∷ s) = c ∷ take n s

abbrev pub is_newline : Str → Bool
is_newline [] = false
is_newline (c ∷ s) = c == b'\n'

abbrev pub without_duplicate : ℕ → Option ℕ → Option ℕ
without_duplicate place none = some place
without_duplicate place (some duplicate) = none

-- Where the source has the text at the start of a line, if that is so at one place only.
unfoldable pub only_match : Str → Str → Option ℕ
only_match source needle = do
  place ← line_match true 0 needle source
  without_duplicate place
      (line_match (is_newline (drop place source)) (suc place) needle (drop (suc place) source))

abbrev pub max_hunks : ℕ
max_hunks = 512

abbrev pub no_body : Body
no_body = record { before = []; after = []; changed = false }

abbrev pub bad_range : Range → ℕ → ℕ → Bool
bad_range r old_end new_end =
    r.old_start == 0 || r.old_count == 0 || ltb r.old_start old_end || ltb r.new_start new_end

-- The range and the lines of a hunk, and the place of its old text in the source.
unfoldable pub take_hunk : Str → ℕ → ℕ → ℕ → Str → Option (Range × Body × ℕ × Str)
take_hunk source old_end new_end cursor p = do
  (r, q) ← hunk_range p
  (b, rest) ← hunk_lines (r.old_count + r.new_count) r.old_count r.new_count no_body q
  place ← only_match source b.before
  let bad = bad_range r old_end new_end || not b.changed || is_empty b.before || ltb place cursor
  if bad then none else some (r, b, place, rest)

unfoldable pub put_hunk : Str → ℕ → Str → Body → ℕ → Option Str
put_hunk source cursor output b place = do
  same ← unified_put output (take (place - cursor) (drop cursor source))
  unified_put same b.after

-- The loop over the hunks, by how many more there may be.
unfoldable pub apply_hunks : Str → ℕ → ℕ → ℕ → ℕ → Str → Str → Option Str
apply_hunks source left old_end new_end cursor output [] =
    if left == max_hunks then none else unified_put output (drop cursor source)
apply_hunks source zero old_end new_end cursor output (c ∷ p) = none
apply_hunks source (suc left) old_end new_end cursor output (c ∷ p) =
    take_hunk source old_end new_end cursor (c ∷ p) >>= λ (r, b, place, rest).
    put_hunk source cursor output b place >>= λ out.
    apply_hunks source left (r.old_start + r.old_count) (r.new_start + r.new_count)
      (place + length b.before) out rest

abbrev pub file_header : Str → Str
file_header name = codes "--- a/" ++ (name ++ (codes "\n+++ b/" ++ (name ++ codes "\n")))

unfoldable pub unified_candidate : Str → Str → Str → Option Str
unified_candidate source patch name =
    if ltb text_limit (length source)
      || ltb text_limit (length patch)
      || leb 256 (length (file_header name))
    then none
    else behind_prefix (file_header name) patch >>= (λ p. apply_hunks source max_hunks 0 0 0 [] p)

pub data PatchError : Type 0 where
  unreadable ambiguous no_match : PatchError

-- The candidate that is selected so far, and the next.
abbrev pub select : Option Str → Option Str → Option Str
select none candidate = candidate
select (some selected) candidate = some selected

abbrev pub differs : Option Str → Option Str → Bool
differs none candidate = false
differs (some selected) none = false
differs (some selected) (some candidate) = not (str_eq selected candidate)

-- `none` among the patches is one that cannot be read.
unfoldable pub apply_candidates :
    Option Str → List (Option Str) → Str → Str → Outcome PatchError Str
apply_candidates none [] source name = err no_match
apply_candidates (some selected) [] source name = ok selected
apply_candidates selected (none ∷ patches) source name = err unreadable
apply_candidates selected (some patch ∷ patches) source name =
    let candidate = unified_candidate source patch name in
    let rest = apply_candidates (select selected candidate) patches source name in
    if differs selected candidate then err ambiguous else rest

unfoldable pub patch_apply_unified : List (Option Str) → Str → Str → Outcome PatchError Str
patch_apply_unified patches source name = apply_candidates none patches source name
