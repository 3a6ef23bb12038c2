-- ===== src/Graph/Paths/Ids.antt =====
-- What `dtg_id_valid` accepts.
use dstudio.Base.{
  ◌≤◌, ◌≡◌, refl, true, false, not, [], ◌∷◌, Str, codes, str_eq, has_prefix, is_empty, length, all,
  arith,
}
use dstudio.Graph.Paths.{
  is_separator, is_dots, is_rooted, relative_path_valid, has_dot_dot, id_valid, is_id_char, id_max,
}
use dstudio.Graph.Paths.Components.{components}
use dstudio.Graph.Paths.Relative.{relative_path_valid_lem}

components_of_id : (s : Str) → all is_id_char s ≡ true → components s ≡ s ∷ []
unfolding components
components_of_id [] h = refl
components_of_id (c ∷ s) h =
    let no_separator : is_separator c ≡ false = ground arith in
    let more : all is_id_char s ≡ true = ground arith in rw (no_separator, components_of_id s more)

id_not_rooted : (s : Str) → all is_id_char s ≡ true → is_rooted s ≡ false
unfolding is_rooted
id_not_rooted [] h = refl
id_not_rooted (c ∷ []) h = ground arith
id_not_rooted (c ∷ d ∷ s) h = ground arith

dots_found : (s : Str) → has_dot_dot s ≡ false → str_eq s (codes "..") ≡ false
unfolding has_dot_dot has_prefix str_eq
dots_found [] h = refl
dots_found (a ∷ []) h = ground arith
dots_found (a ∷ b ∷ []) h = ground arith
dots_found (a ∷ b ∷ c ∷ s) h = ground arith

id_valid_parts :
    (s : Str)
    → id_valid s ≡ true
    → (is_empty s ≡ false)
      × (length s ≤ id_max)
      × (has_dot_dot s ≡ false)
      × (all is_id_char s ≡ true)
unfolding id_valid
id_valid_parts s h = ground arith

-- An accepted id has 1 to 64 bytes and is a single path component other than ".."; it is a path
-- that `dtg_relative_path_valid` accepts exactly when it is not ".".
pub id_valid-component :
    (s : Str)
    → id_valid s ≡ true
    → (1 ≤ length s)
      × (length s ≤ id_max)
      × (components s ≡ s ∷ [])
      × (str_eq s (codes "..") ≡ false)
      × (relative_path_valid s ≡ not (str_eq s (codes ".")))
unfolding is_dots
id_valid-component s h =
    let (full, short, no_dots, chars) = id_valid_parts s h in
    let one = components_of_id s chars in
    let not_up = dots_found s no_dots in
    let flat = id_not_rooted s chars in
    (
      length_pos s full,
      short,
      one,
      not_up,
      rw (relative_path_valid_lem s, full, flat, one, not_up) (ground arith),
    )
  where
    length_pos : (t : Str) → is_empty t ≡ false → 1 ≤ length t
    length_pos [] e = cc
    length_pos (c ∷ t) e = omega arith
