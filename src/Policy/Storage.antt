-- ===== src/Policy/Storage.antt =====
-- What an accepted `workspace.write` may overwrite.
use dstudio.Base.{
  ℕ, ◌≡◌, ◌⊎◌, ◌≤◌, inl, inr, refl, sym, ◌∙◌, true, false, [], ◌∷◌, ◌++◌, Option, some, none, Str,
  codes, str_eq, eq_of_str_eq, has_prefix, is_empty, ◌==◌, arith, ok, refuse, refuse-eq-ok,
  >>-eq-ok, Bool-cases,
}
use dstudio.Graph.Types.{Node}
use dstudio.Graph.Errors.{write_shape, write_control_storage}
use dstudio.Graph.Paths.{component_bytes, after_component, is_separator, relative_path_valid}
use dstudio.Policy.Actions.{write_policy, not_write, in_control_storage, text_length}

bytes_split : (p : Str) → component_bytes p ++ after_component p ≡ p
unfolding component_bytes after_component
bytes_split [] = refl
bytes_split (c ∷ p) = ground (arith, bytes_split p)

has_prefix_append : (s t : Str) → has_prefix (s ++ t) s ≡ true
unfolding has_prefix
has_prefix_append [] [] = refl
has_prefix_append [] (c ∷ t) = refl
has_prefix_append (c ∷ s) t = ground (arith, has_prefix_append s t)

-- The separator behind the first component, if there is one.
abbrev pub next_separator : Str → Option ℕ
next_separator p = elim (after_component p) [ [] ↦ none | c ∷ rest ↦ some c ]

after_separates :
    (p : Str)
    → (after_component p ≡ [])
      ⊎ ((c : ℕ) × (rest : Str) × (after_component p ≡ c ∷ rest) × (is_separator c ≡ true))
unfolding after_component
after_separates [] = inl refl
after_separates (c ∷ p) = elim (Bool-cases (is_separator c)) [
  | inl sep ↦ inr (c, p, ground arith, sep)
  | inr other ↦ elim (after_separates p) [
    | inl e ↦ inl (ground arith)
    | inr (d, rest, e, s) ↦ inr (d, rest, ground arith, s)
  ]
]

control_component :
    (p : Str)
    → in_control_storage p ≡ false
    → component_bytes p ≡ codes ".dstudio"
    → next_separator p ≡ some b'\\'
control_component p outside same = elim (after_separates p) [
  | inl ends ↦
      let whole : p ≡ codes ".dstudio" = sym (bytes_split p) ∙ rw (same, ends) in
      absurd (inside whole)
  | inr (c, rest, e, s) ↦
      let split : p ≡ codes ".dstudio" ++ c ∷ rest = sym (bytes_split p) ∙ rw (same, e) in
      elim (Bool-cases (c == b'\\')) [
        | inl back ↦ let is_back : c ≡ b'\\' = ground arith in ground (arith, e)
        | inr forward ↦
            let slash : c ≡ b'/' = ground arith in absurd (below rest (rw slash at split))
      ]
]
  where
    inside : p ≡ codes ".dstudio" → ⊥
    inside e =
        let held : in_control_storage p ≡ true = rw e (unfold str_eq has_prefix in refl) in cc

    below : (rest : Str) → p ≡ codes ".dstudio" ++ b'/' ∷ rest → ⊥
    below rest e =
        let held : has_prefix p (codes ".dstudio/") ≡ true = rw e (unfold has_prefix in refl) in
        let held' : in_control_storage p ≡ true = rw held in cc

-- An accepted `workspace.write` goes to a valid relative path that is not empty, with a text of at
-- most the declared size. The first component of the path is not `.dstudio`, where the task graphs
-- are stored, or a backslash follows that component.
pub write_policy-outside :
    (n : Node)
    → write_policy n ≡ ok tt
    → (is_empty n.action_path ≡ false)
      × (relative_path_valid n.action_path ≡ true)
      × (text_length n.action_text ≤ n.action_max_bytes)
      × ((str_eq (component_bytes n.action_path) (codes ".dstudio") ≡ false)
          ⊎ (next_separator n.action_path ≡ some b'\\'))
unfolding write_policy
write_policy-outside n h =
    let (h₁, k₁) = >>-eq-ok (refuse (not_write n) write_shape) _ h in
    let (h₂, h₃) =
      >>-eq-ok (refuse (in_control_storage n.action_path) write_control_storage) _ k₁ in
    let shape = refuse-eq-ok _ _ h₁ in
    let outside = refuse-eq-ok _ _ h₂ in
    let short = refuse-eq-ok _ _ h₃ in
    let first = str_eq (component_bytes n.action_path) (codes ".dstudio") in
    (
      ground arith,
      ground arith,
      ground arith,
      elim (Bool-cases first) [
        | inl control ↦ inr (control_component n.action_path outside (eq_of_str_eq _ _ control))
        | inr other ↦ inl other
      ],
    )
