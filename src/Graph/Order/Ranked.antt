-- ===== src/Graph/Order/Ranked.antt =====
-- `dtg_topological_order` succeeds exactly on the graphs without a cycle.
use dstudio.Base.{
  ℕ, suc, ◌≤◌, ◌<◌, ◌≡◌, ◌↔◌, refl, ◌∙◌, true, false, List, [], ◌∷◌, ◌++◌, append-nil, append_assoc,
  Str, str_eq, if◌then◌else◌, ◌==◌, length, All-map, count, All, arith, Bool-cases, inl, inr,
  eq_of_str_eq, ok,
}
use dstudio.Graph.Types.{Node, Graph}
use dstudio.Graph.Order.{id_at, emit, topological_order, max_nodes}
use dstudio.Graph.Order.Counts.{contains, contains-append}
use dstudio.Graph.Order.Loop.{HasUniqueIds}
use dstudio.Graph.Order.Invariant.{deps_at, ids, IsPlaced, LoopInv, contains-ids}
use dstudio.Graph.Order.Sound.{emit-LoopInv, emit_complete, topological_order-parts}
use dstudio.Graph.Order.Acyclic.{IsAcyclic, descent, missing_zero_inv, zeros_full}

-- The position of an id in a list.
abbrev pub position : Str → List Str → ℕ
position s [] = 0
position s (t ∷ ts) = if str_eq s t then 0 else suc (position s ts)

position-lt :
    (s : Str) (xs ys : List Str) → contains xs s ≡ true → position s (xs ++ ys) < length xs
position-lt s [] ys h = cc
position-lt s (x ∷ xs) ys h = ground (arith, position-lt s xs ys)

length-le-position :
    (s : Str) (xs ys : List Str) → contains xs s ≡ false → length xs ≤ position s (xs ++ ys)
length-le-position s [] ys h = omega arith
length-le-position s (x ∷ xs) ys h = ground (arith, length-le-position s xs ys)

module _ (nodes : List Node) (unique : HasUniqueIds nodes) (j : ℕ) (bound : j < length nodes) where
  abbrev Behind : List Str → Type 0
  Behind listed =
      All
        (λ d.
          (contains listed d.node_id ≡ true)
          × (position d.node_id listed < position (id_at nodes j) listed))
        (deps_at nodes j)

  -- A dependency of a listed node has a smaller position than the node.
  placed_position :
      (seen : List Str) (order : List ℕ)
      → All (λ i. i < length nodes) order
      → IsPlaced nodes seen order
      → contains seen (id_at nodes j) ≡ false
      → 1 ≤ count j order
      → Behind (seen ++ ids nodes order)
  placed_position seen [] valid placed fresh often = absurd (omega arith)
  placed_position seen (i ∷ order) valid placed fresh often = elim (Bool-cases (i == j)) [
    | inl hit ↦
        let same : i ≡ j = ground arith in
        let met = rw same at (placed.0) in
        let listed = ids nodes (i ∷ order) in
        All-map _ _ (deps_at nodes j)
          (λ d there. (
            ground (arith, there, contains-append seen listed d.node_id),
            omega (
              arith,
              position-lt d.node_id seen listed there,
              length-le-position (id_at nodes j) seen listed fresh,
            ),
          ))
          (missing_zero_inv seen (deps_at nodes j) met)
    | inr miss ↦
        let later : 1 ≤ count j order = ground arith in
        rw (← append_assoc seen (id_at nodes i ∷ []) (ids nodes order)) (
          placed_position (seen ++ id_at nodes i ∷ []) order valid.1 placed.1
            (still_fresh i seen valid.0 miss fresh) later)
  ]
    where
      still_fresh :
          (i : ℕ) (seen : List Str)
          → i < length nodes
          → (i == j) ≡ false
          → contains seen (id_at nodes j) ≡ false
          → contains (seen ++ id_at nodes i ∷ []) (id_at nodes j) ≡ false
      still_fresh i seen in_range other fresh =
          elim (Bool-cases (str_eq (id_at nodes j) (id_at nodes i))) [
            | inl equal ↦
                let same =
                  unique j i bound in_range (eq_of_str_eq (id_at nodes j) (id_at nodes i) equal) in
                absurd (differ same other)
            | inr differs ↦
                rw (contains-append seen (id_at nodes i ∷ []) (id_at nodes j), fresh, differs) refl
          ]
        where
          differ : j ≡ i → (i == j) ≡ false → ⊥
          differ e h = ground arith

emit-IsRanked :
    (nodes : List Node) (ks : List ℕ)
    → HasUniqueIds nodes
    → LoopInv nodes ks [] (emit nodes)
    → length (emit nodes) ≡ length nodes
    → IsAcyclic nodes
emit-IsRanked nodes ks unique inv full =
    let order = emit nodes in
    let none_left : order ++ [] ≡ order = append-nil order in
    let valid = rw none_left at (inv.valid) in
    (
      λ s. position s (ids nodes order),
      λ j bound.
          All-map _ _ (deps_at nodes j)
            (λ d behind.
              let (i, often, in_range, named) = contains-ids nodes order d.node_id behind.0 valid in
              ((i, in_range, named), behind.1))
            (placed_position nodes unique j bound [] order valid inv.placed refl
              (let once = emit_complete nodes ks inv full j bound in omega arith)),
    )

emit_full :
    (nodes : List Node) → HasUniqueIds nodes → IsAcyclic nodes → length (emit nodes) ≡ length nodes
emit_full nodes unique (rank, ranked) =
    let (ks, inv) = emit-LoopInv nodes unique in
    let order = emit nodes in
    let none_left : order ++ [] ≡ order = append-nil order in
    let counted = rw none_left at (inv.counted) in
    let total = rw none_left at (inv.total) in
    total
    ∙ zeros_full 0 (ids nodes order) order nodes ks counted (λ j bound.
      descent nodes rank ranked ks order counted (suc (rank (id_at nodes j))) j bound (omega arith))

topological_order_of_full :
    (g : Graph)
    → 0 < length g.nodes
    → length g.nodes ≤ max_nodes
    → length (emit g.nodes) ≡ length g.nodes
    → topological_order g ≡ ok (emit g.nodes)
unfolding topological_order
topological_order_of_full g some_nodes few full = ground arith

-- On 1 to 256 nodes with distinct ids an order is returned exactly when every dependency names a
-- node and the dependencies form no cycle.
pub topological_order_iff :
    (g : Graph)
    → HasUniqueIds g.nodes
    → 0 < length g.nodes
    → length g.nodes ≤ max_nodes
    → ((order : List ℕ) × (topological_order g ≡ ok order)) ↔ IsAcyclic g.nodes
topological_order_iff g unique some_nodes few = (
  λ (order, e).
      let (ks, inv) = emit-LoopInv g.nodes unique in
      emit-IsRanked g.nodes ks unique inv (topological_order-parts g order e).1,
  λ acyclic.
      (emit g.nodes, topological_order_of_full g some_nodes few (emit_full g.nodes unique acyclic)),
)
