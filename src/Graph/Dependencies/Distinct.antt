-- ===== src/Graph/Dependencies/Distinct.antt =====
-- What a list of dependencies that was added one by one is like.
use dstudio.Base.{
  ℕ, zero, suc, ◌≡◌, ◌≤◌, inl, inr, refl, sym, ◌∙◌, ap, subst, true, false, List, [], ◌∷◌, ◌++◌,
  append-nil, append_assoc, none, Str, cstr_copy, str_eq, leb, length, length-append, All,
  All-append, ok, arith, Bool-cases, Option-cases, >>=-eq-ok,
}
use dstudio.Graph.Types.{Condition, Dependency}
use dstudio.Graph.Paths.{id_max, id_valid}
use dstudio.Graph.Paths.Ids.{id_valid-component}
use dstudio.Graph.Dependencies.{add_dependencies, add_dependency, find_duplicate, max_dependencies}

-- No two of the dependencies name one node.
abbrev pub AllApart : List Dependency → Type 0
AllApart [] = Unit
AllApart (d ∷ ds) = All (λ e. str_eq d.node_id e.node_id ≡ false) ds × AllApart ds

-- The dependencies of a node: at most 64, of distinct nodes.
pub record IsBundle (deps : List Dependency) : Type 0 where
  pub few : length deps ≤ max_dependencies
  pub apart : AllApart deps

find_duplicate-none :
    (deps : List Dependency) (id : Str) (c : Condition)
    → find_duplicate deps id c ≡ none
    → All (λ e. str_eq e.node_id id ≡ false) deps
unfolding find_duplicate
find_duplicate-none [] id c h = tt
find_duplicate-none (d ∷ ds) id c h = elim (Bool-cases (str_eq d.node_id id)) [
  | inl hit ↦ let bad = rw (find_duplicate, hit) at h in cc
  | inr miss ↦ (miss, find_duplicate-none ds id c (rw (find_duplicate, miss) at h))
]

AllApart-append :
    (deps : List Dependency) (d : Dependency)
    → AllApart deps
    → All (λ e. str_eq e.node_id d.node_id ≡ false) deps
    → AllApart (deps ++ d ∷ [])
AllApart-append [] d apart new = (tt, tt)
AllApart-append (e ∷ deps) d (fresh, apart) (here, new) =
    (All-append _ deps (d ∷ []) fresh (here, tt), AllApart-append deps d apart new)

cstr_copy_lem : (limit : ℕ) (s : Str) → length s ≤ limit → cstr_copy limit s ≡ s
unfolding cstr_copy
cstr_copy_lem zero [] h = refl
cstr_copy_lem zero (c ∷ s) h = absurd (omega arith)
cstr_copy_lem (suc limit) [] h = refl
cstr_copy_lem (suc limit) (c ∷ s) h = ap (λ t. c ∷ t) (cstr_copy_lem limit s (omega arith))

add_dependency-IsBundle :
    (deps : List Dependency) (d : Dependency) (deps' : List Dependency)
    → id_valid d.node_id ≡ true
    → IsBundle deps
    → add_dependency deps d ≡ ok deps'
    → (deps' ≡ deps ++ d ∷ []) × IsBundle (deps ++ d ∷ [])
unfolding add_dependency
add_dependency-IsBundle deps d deps' valid bundle h =
    elim (Bool-cases (leb max_dependencies (length deps))) [
      | inl full ↦ let bad = rw (add_dependency, full) at h in cc
      | inr room ↦ elim (Option-cases (find_duplicate deps d.node_id d.condition)) [
        | inr (e, twice) ↦ let bad = rw (add_dependency, room, twice) at h in cc
        | inl once ↦
            let copied = cstr_copy_lem id_max d.node_id (id_valid-component d.node_id valid).1 in
            let made = rw (add_dependency, room, once, copied) at h in
            let longer = length-append deps (d ∷ []) in
            (
              cc,
              record {
                few = ground (arith, longer);
                apart =
                    AllApart-append deps d bundle.apart
                      (find_duplicate-none deps d.node_id d.condition once);
              },
            )
      ]
    ]

-- Adding dependencies one by one to a node whose dependencies are at most 64, of distinct nodes,
-- keeps to that, and where it succeeds the node has exactly the old ones and the new ones, in
-- order.
pub add_dependencies-IsBundle :
    (deps ds deps' : List Dependency)
    → IsBundle deps
    → add_dependencies deps ds ≡ ok deps'
    → (deps' ≡ deps ++ ds) × IsBundle deps'
unfolding add_dependencies
add_dependencies-IsBundle deps [] deps' bundle h =
    let same : deps ≡ deps' = cc in (sym same ∙ sym (append-nil deps), subst IsBundle same bundle)
add_dependencies-IsBundle deps (d ∷ ds) deps' bundle h = elim (Bool-cases (id_valid d.node_id)) [
  | inr invalid ↦ let bad = rw (add_dependencies, invalid) at h in cc
  | inl valid ↦
      let (mid, first, others) =
        >>=-eq-ok (add_dependency deps d) (λ more. add_dependencies more ds)
          (rw (add_dependencies, valid) at h) in
      let (made, grown) = add_dependency-IsBundle deps d mid valid bundle first in
      let (same, final) =
        add_dependencies-IsBundle mid ds deps' (subst IsBundle (sym made) grown) others in
      (same ∙ ap (λ xs. xs ++ ds) made ∙ append_assoc deps (d ∷ []) ds, final)
]
