-- ===== src/Graph/Paths/Components.antt =====
-- A reference reading of a path: its components between separators, and where a walk along them
-- ends.
use dstudio.Base.{
  ℕ, ◌≡◌, refl, Bool, not, ◌||◌, List, [], ◌∷◌, Option, some, none, Str, codes, str_eq, is_empty,
  if◌then◌else◌, all, arith, Bool-cases, inl, inr,
}
use dstudio.Graph.Paths.{is_separator, skip_separators, component_bytes, after_component, is_dots}

abbrev pub cons_head : ℕ → List Str → List Str
cons_head c [] = (c ∷ []) ∷ []
cons_head c (w ∷ ws) = (c ∷ w) ∷ ws

-- "a//b" has the components "a", "" and "b".
unfoldable pub components : Str → List Str
components [] = [] ∷ []
components (c ∷ s) = if is_separator c then [] ∷ components s else cons_head c (components s)

-- One step of a walk along components, as a file system reads them: the stack of directories below
-- the start, the innermost first, or nothing if the step leaves the start through "..".
unfoldable pub enter : List Str → Str → Option (List Str)
enter stack w =
    if is_empty w || str_eq w (codes ".")
    then some stack
    else if str_eq w (codes "..")
    then elim stack [ [] ↦ none | d ∷ outer ↦ some outer ]
    else some (w ∷ stack)

unfoldable pub walk : List Str → List Str → Option (List Str)
unfolding enter
walk stack [] = some stack
walk stack (w ∷ ws) = elim (enter stack w) [ none ↦ none | some s ↦ walk s ws ]

abbrev pub plain : Str → Bool
plain w = not (is_dots w)

pub components_skip :
    (p : Str) → all plain (components (skip_separators p)) ≡ all plain (components p)
unfolding components skip_separators is_dots str_eq
components_skip [] = refl
components_skip (c ∷ p) = ground (arith, components_skip p)

-- The first component, and what is left behind its end.
pub components_split :
    (p : Str)
    → (rest : List Str) × (components p ≡ component_bytes p ∷ rest)
      × (all plain (components (after_component p)) ≡ all plain rest)
unfolding components component_bytes after_component is_dots str_eq
components_split [] = ([], refl, refl)
components_split (c ∷ p) = elim (Bool-cases (is_separator c)) [
  | inl sep ↦ (components p, ground arith, ground arith)
  | inr other ↦ let (rest, same, below) = components_split p in (rest, ground arith, ground arith)
]
