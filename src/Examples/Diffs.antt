-- ===== src/Examples/Diffs.antt =====
-- The theorems about unified patches at concrete texts.
use dstudio.Base.{
  ◌≡◌, ◌≢◌, ◌↔◌, ◌++◌, refl, [], ◌∷◌, List, Option, All, Str, codes, some, ok, has_prefix,
}
use dstudio.Patch.{
  apply_hunks, drop, file_header, line_match, only_match, patch_apply_unified, put_hunk, take,
  take_hunk, unified_candidate,
}
use dstudio.Patch.Hunks.{
  behind_prefix, digits_value, hunk_line, hunk_lines, hunk_range, line_kind, put_after, put_before,
  put_line, range_count, take_line, unified_number, unified_put, unified_range,
}
use dstudio.Patch.Agreed.{GivesOne, Permits, patch_apply_unified_iff}
use dstudio.Patch.Applied.{Applied, unified_candidate-Applied}

abbrev name : Str
name = codes "a.c"

abbrev source : Str
source = codes "one\ntwo\nthree\n"

abbrev target : Str
target = codes "one\n2\nthree\n"

abbrev patch : Str
patch = codes "--- a/a.c\n+++ b/a.c\n@@ -1,3 +1,3 @@\n one\n-two\n+2\n three\n"

candidate : unified_candidate source patch name ≡ some target
unfolding unified_candidate apply_hunks behind_prefix digits_value drop hunk_line hunk_lines
    hunk_range line_kind line_match only_match put_after put_before put_hunk put_line range_count
    take take_hunk take_line unified_number unified_put unified_range has_prefix
candidate = refl

unified_candidate-Applied_example :
    (hunks : Str) × (patch ≡ file_header name ++ hunks)
    × (hunks ≢ [])
    × Applied source 0 hunks target
unified_candidate-Applied_example = unified_candidate-Applied source patch name candidate

abbrev set_of_two : List (Option Str)
set_of_two = some patch ∷ some (codes "--- a/b.c\n") ∷ []

patch_apply_unified_iff_example :
    (patch_apply_unified set_of_two source name ≡ ok target)
    ↔ (All (Permits source name target) set_of_two × GivesOne source name target set_of_two)
patch_apply_unified_iff_example = patch_apply_unified_iff set_of_two source name target
