-- ===== src/Graph/Paths/Relative.antt =====
-- What `dtg_relative_path_valid` accepts.
use dstudio.Base.{
  ℕ, zero, suc, ◌≤◌, ◌≡◌, refl, true, false, not, ◌&&◌, ◌||◌, List, [], ◌∷◌, ◌++◌, some, Str,
  str_eq, is_empty, length, all, arith, ◌⊎◌, append_assoc, Bool-cases, inl, inr,
}
use dstudio.Graph.Paths.{
  is_separator, skip_separators, after_component, is_dots, no_dots, is_rooted, relative_path_valid,
}
use dstudio.Graph.Paths.Components.{
  components, enter, walk, plain, components_skip, components_split,
}

length-skip : (p : Str) → length (skip_separators p) ≤ length p
unfolding skip_separators
length-skip [] = omega arith
length-skip (c ∷ p) = ground (arith, length-skip p)

length-after : (p : Str) → length (after_component p) ≤ length p
unfolding after_component
length-after [] = omega arith
length-after (c ∷ p) = ground (arith, length-after p)

-- A round of the loop consumes a byte: of a separator, or of a component.
length_round : (c : ℕ) (p : Str) → length (after_component (skip_separators (c ∷ p))) ≤ length p
unfolding skip_separators after_component
length_round c p = elim (Bool-cases (is_separator c)) [
  | inl sep ↦ rw sep (omega (arith, length-after (skip_separators p), length-skip p))
  | inr other ↦ rw (other, after_component) (rw other (length-after p))
]

no_dots_lem : (fuel : ℕ) (p : Str) → length p ≤ fuel → no_dots fuel p ≡ all plain (components p)
unfolding no_dots
no_dots_lem zero [] h = unfold components is_dots str_eq in refl
no_dots_lem zero (c ∷ p) h = absurd (omega arith)
no_dots_lem (suc fuel) [] h = unfold components is_dots str_eq in refl
no_dots_lem (suc fuel) (c ∷ p) h =
    let start = skip_separators (c ∷ p) in
    let (rest, same, below) = components_split start in
    let ih = no_dots_lem fuel (after_component start) (omega (arith, length_round c p)) in
    rw (← components_skip (c ∷ p), same, ih, below) (ground arith)

-- The loop is the reference test: a path is accepted exactly when it is empty, or not rooted and
-- without a component "." or "..".
pub relative_path_valid_lem :
    (s : Str)
    → relative_path_valid s ≡ (is_empty s || not (is_rooted s) && all plain (components s))
unfolding relative_path_valid
relative_path_valid_lem s = ground (arith, no_dots_lem (length s) s)

enter-plain :
    (stack : List Str) (w : Str)
    → plain w ≡ true
    → (enter stack w ≡ some stack) ⊎ (enter stack w ≡ some (w ∷ stack))
unfolding enter is_dots
enter-plain stack w h = ground arith

walk-plain :
    (ws stack : List Str)
    → all plain ws ≡ true
    → (more : List Str) × (walk stack ws ≡ some (more ++ stack))
unfolding walk
walk-plain [] stack h = ([], refl)
walk-plain (w ∷ ws) stack h =
    let here : plain w ≡ true = ground arith in
    let there : all plain ws ≡ true = ground arith in
    elim (enter-plain stack w here) [
      | inl stay ↦ rw (walk, stay) (walk-plain ws stack there)
      | inr down ↦
          let (more, e) = walk-plain ws (w ∷ stack) there in
          (more ++ w ∷ [], rw (walk, down, append_assoc) e)
    ]

-- An accepted path that is not empty is not rooted, and the walk along its components stays below
-- the directory where it starts.
pub relative_path_valid-walk :
    (s : Str) (stack : List Str)
    → relative_path_valid s ≡ true
    → is_empty s ≡ false
    → (is_rooted s ≡ false)
      × ((more : List Str) × (walk stack (components s) ≡ some (more ++ stack)))
relative_path_valid-walk s stack valid full =
    let e = relative_path_valid_lem s in
    (ground arith, walk-plain (components s) stack (ground arith))
