-- ===== src/Graph/Paths.antt =====
-- The two lexical checks of src/dstudio_task_graph.c: `dtg_id_valid` and
-- `dtg_relative_path_valid`. A string is the bytes before its NUL, so `*p` fails at `[]`.
pub mod Components
pub mod Relative
pub mod Ids
use dstudio.Base.{
  ℕ, zero, suc, ◌+◌, Bool, true, false, not, ◌&&◌, ◌||◌, List, [], ◌∷◌, Str, codes, str_eq,
  has_prefix, is_empty, is_alpha, is_alnum, if◌then◌else◌, ◌==◌, ltb, length, all,
}

abbrev pub id_max : ℕ
id_max = 64

-- `strstr(s, "..")`
unfoldable pub has_dot_dot : Str → Bool
has_dot_dot [] = false
has_dot_dot (c ∷ s) = has_prefix (c ∷ s) (codes "..") || has_dot_dot s

abbrev pub is_id_char : ℕ → Bool
is_id_char c = is_alnum c || c == b'.' || c == b'_' || c == b'-'

unfoldable pub id_valid : Str → Bool
id_valid s =
    if is_empty s || ltb id_max (length s) || has_dot_dot s then false else all is_id_char s

abbrev pub is_separator : ℕ → Bool
is_separator c = c == b'/' || c == b'\\'

-- `while (*p == '/' || *p == '\\') p++;`
unfoldable pub skip_separators : Str → Str
skip_separators [] = []
skip_separators (c ∷ p) = if is_separator c then skip_separators p else c ∷ p

-- `while (*p && *p != '/' && *p != '\\') p++;`: the bytes passed, and where `p` ends.
unfoldable pub component_bytes : Str → Str
component_bytes [] = []
component_bytes (c ∷ p) = let more = c ∷ component_bytes p in if is_separator c then [] else more

unfoldable pub after_component : Str → Str
after_component [] = []
after_component (c ∷ p) = if is_separator c then c ∷ p else after_component p

unfoldable pub is_dots : Str → Bool
is_dots c = str_eq c (codes ".") || str_eq c (codes "..")

-- The outer loop; each round consumes at least one byte, so the length of the path is fuel enough.
unfoldable pub no_dots : ℕ → Str → Bool
no_dots zero p = true
no_dots (suc fuel) [] = true
no_dots (suc fuel) (c ∷ p) =
    let start = skip_separators (c ∷ p) in
    let rest = no_dots fuel (after_component start) in
    if is_dots (component_bytes start) then false else rest

-- An absolute path, a UNC path, or one with a drive letter.
unfoldable pub is_rooted : Str → Bool
is_rooted [] = false
is_rooted (c ∷ []) = c == b'/' || c == b'\\'
is_rooted (c ∷ d ∷ s) = c == b'/' || c == b'\\' || is_alpha c && d == b':'

unfoldable pub relative_path_valid : Str → Bool
unfolding is_rooted no_dots
relative_path_valid s =
    if is_empty s then true else if is_rooted s then false else no_dots (length s) s
