-- ===== src/Graph/Order/Acyclic.antt =====
-- Graphs without a cycle, and why each of their nodes comes to be emitted by `dtg_topological_order`.
use dstudio.Base.{
  ℕ, zero, suc, ◌+◌, ◌≤◌, ◌<◌, ◌≡◌, refl, true, List, [], ◌∷◌, Str, ◌==◌, length, get_elem?-lt,
  All-map, count, All, arith, Bool-cases, inl, inr, str_eq_self,
}
use dstudio.Graph.Types.{Dependency, Node}
use dstudio.Graph.Order.{id_at}
use dstudio.Graph.Order.Counts.{contains, missing}
use dstudio.Graph.Order.Loop.{IsCounted, IsCounted-at}
use dstudio.Graph.Order.Invariant.{deps_at, ids, zeros}

-- Every dependency of node `j` names a node, of a lower rank than `j`.
abbrev pub IsRanked : (Str → ℕ) → List Node → Type 0
IsRanked rank nodes =
    (j : ℕ)
    → j < length nodes
    → All
        (λ d.
          ((i : ℕ) × (i < length nodes) × (d.node_id ≡ id_at nodes i))
          × (rank d.node_id < rank (id_at nodes j)))
        (deps_at nodes j)

-- The dependencies name nodes of the graph and form no cycle.
abbrev pub IsAcyclic : List Node → Type 0
IsAcyclic nodes = (rank : Str → ℕ) × IsRanked rank nodes

contains_of_count :
    (nodes : List Node) (order : List ℕ) (j : ℕ)
    → 1 ≤ count j order
    → contains (ids nodes order) (id_at nodes j) ≡ true
contains_of_count nodes [] j h = absurd (omega arith)
contains_of_count nodes (i ∷ order) j h = elim (Bool-cases (i == j)) [
  | inl hit ↦ let same : i ≡ j = ground arith in rw (same, str_eq_self (id_at nodes j)) refl
  | inr miss ↦ ground (arith, contains_of_count nodes order j)
]

missing_zero :
    (seen : List Str) (ds : List Dependency)
    → All (λ d. contains seen d.node_id ≡ true) ds
    → missing seen ds ≡ 0
missing_zero seen [] h = refl
missing_zero seen (d ∷ ds) h = rw (h.0, missing_zero seen ds h.1) refl

pub missing_zero_inv :
    (seen : List Str) (ds : List Dependency)
    → missing seen ds ≡ 0
    → All (λ d. contains seen d.node_id ≡ true) ds
missing_zero_inv seen [] h = tt
missing_zero_inv seen (d ∷ ds) h = (ground arith, missing_zero_inv seen ds (ground arith))

pub zeros_full :
    (i : ℕ) (seen : List Str) (listed : List ℕ) (ns : List Node) (ks : List ℕ)
    → IsCounted i seen listed ns ks
    → ((j : ℕ) → j < length ns → missing seen (deps_at ns j) ≡ 0)
    → zeros ks ≡ length ns
zeros_full i seen listed [] [] h all_met = refl
zeros_full i seen listed [] (k ∷ ks) h all_met = absurd h
zeros_full i seen listed (n ∷ ns) [] h all_met = absurd h
zeros_full i seen listed (n ∷ ns) (k ∷ ks) h all_met =
    let met = all_met 0 (omega arith) in
    let rest =
      zeros_full (suc i) seen listed ns ks h.2 (λ j bound. all_met (suc j) (omega arith)) in
    let degree = h.0 in ground arith

module _ (nodes : List Node) (rank : Str → ℕ) (ranked : IsRanked rank nodes) (ks order : List ℕ)
    (counted : IsCounted 0 (ids nodes order) order nodes ks) where
  -- A node of rank below `r` has all of its dependencies among the emitted nodes.
  pub descent :
      (r j : ℕ)
      → j < length nodes
      → rank (id_at nodes j) < r
      → missing (ids nodes order) (deps_at nodes j) ≡ 0
  descent zero j bound below = absurd (omega arith)
  descent (suc r) j bound below = missing_zero (ids nodes order) (deps_at nodes j) (
      All-map _ _ (deps_at nodes j)
        (λ d found.
          let (i, in_range, named) = found.0 in
          let lower = found.1 in
          let lower' = rw named at lower in
          let met = descent r i in_range (omega arith) in
          rw named (contains_of_count nodes order i (emitted i in_range met)))
        (ranked j bound))
    where
      emitted :
          (i : ℕ)
          → i < length nodes
          → missing (ids nodes order) (deps_at nodes i) ≡ 0
          → 1 ≤ count i order
      emitted i in_range met =
          let (m, found) = get_elem?-lt nodes i in_range in
          let once = IsCounted-at 0 (ids nodes order) order nodes ks i m counted found in
          let shift : 0 + i ≡ i = omega arith in
          let once' = rw shift at once in
          let same : deps_at nodes i ≡ m.dependencies = rw (found, deps_at) refl in
          let met' = rw same at met in ground arith
