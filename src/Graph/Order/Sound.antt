-- ===== src/Graph/Order/Sound.antt =====
-- An order that `dtg_topological_order` returns is a topological order of the nodes.
use dstudio.Base.{
  ℕ, zero, suc, ◌+◌, ◌≤◌, ◌<◌, ◌≡◌, refl, sym, ap, List, [], ◌∷◌, ◌++◌, append-nil, append_assoc,
  Str, ◌==◌, length, length-append, length-map, count, count-append, All, arith, Bool-cases, inl,
  inr, ok,
}
use dstudio.Graph.Types.{Dependency, Node, Graph}
use dstudio.Graph.Order.{id_at, sort_loop, roots, indegrees, emit, topological_order}
use dstudio.Graph.Order.Counts.{missing, lowered, wakes, relax_lem}
use dstudio.Graph.Order.Loop.{HasUniqueIds, IsCounted}
use dstudio.Graph.Order.Invariant.{ids, IsPlaced, zeros, LoopInv, LoopInv-step}

roots_above : (j i : ℕ) (ks : List ℕ) → j < i → count j (roots i ks) ≡ 0
unfolding roots
roots_above j i [] h = refl
roots_above j i (k ∷ ks) h = ground (arith, roots_above j (suc i) ks)

missing-nil : (ds : List Dependency) → missing [] ds ≡ length ds
missing-nil [] = refl
missing-nil (d ∷ ds) = omega (arith, missing-nil ds)

roots-IsCounted :
    (i : ℕ) (front : List ℕ) (ns : List Node)
    → ((j : ℕ) → i ≤ j → count j front ≡ 0)
    → IsCounted i [] (front ++ roots i (indegrees ns)) ns (indegrees ns)
unfolding roots
roots-IsCounted i front [] h = tt
roots-IsCounted i front (n ∷ ns) h = elim (Bool-cases (length n.dependencies == 0)) [
  | inl root ↦
      let rest = roots (suc i) (indegrees ns) in
      rw (root, roots)
        (
          sym (missing-nil n.dependencies),
          rw (count-append i front (i ∷ rest))
              (ground (arith, h i, roots_above i (suc i) (indegrees ns))),
          rw (← append_assoc front (i ∷ []) rest) (
              roots-IsCounted (suc i) (front ++ i ∷ []) ns (λ j below.
                rw (count-append j front (i ∷ [])) (let old = h j (omega arith) in ground arith))),
        )
  | inr waits ↦
      let rest = roots (suc i) (indegrees ns) in
      rw (waits, roots)
        (
          sym (missing-nil n.dependencies),
          rw (count-append i front rest)
              (ground (arith, h i, roots_above i (suc i) (indegrees ns))),
          roots-IsCounted (suc i) front ns (λ j below. h j (omega arith)),
        )
]

roots-valid :
    (i : ℕ) (ks : List ℕ) (bound : ℕ) → i + length ks ≤ bound → All (λ j. j < bound) (roots i ks)
unfolding roots
roots-valid i [] bound h = tt
roots-valid i (k ∷ ks) bound h = ground (arith, roots-valid (suc i) ks bound)

length-roots : (i : ℕ) (ks : List ℕ) → length (roots i ks) ≡ zeros ks
unfolding roots
length-roots i [] = refl
length-roots i (k ∷ ks) = ground (arith, length-roots (suc i) ks)

zeros-le-length : (ks : List ℕ) → zeros ks ≤ length ks
zeros-le-length [] = omega arith
zeros-le-length (k ∷ ks) = ground (arith, zeros-le-length ks)

length-counted :
    (i : ℕ) (seen : List Str) (listed : List ℕ) (ns : List Node) (ks : List ℕ)
    → IsCounted i seen listed ns ks
    → length ks ≡ length ns
length-counted i seen listed [] [] h = refl
length-counted i seen listed [] (k ∷ ks) h = absurd h
length-counted i seen listed (n ∷ ns) [] h = absurd h
length-counted i seen listed (n ∷ ns) (k ∷ ks) h =
    ap suc (length-counted (suc i) seen listed ns ks h.2)

module _ (nodes : List Node) (unique : HasUniqueIds nodes) where
  -- As many rounds as there are nodes left to emit empty the queue.
  sort_loop_lem :
      (fuel : ℕ) (ks queue order : List ℕ)
      → fuel + length order ≡ length nodes
      → LoopInv nodes ks queue order
      → (ks' : List ℕ) × LoopInv nodes ks' [] (sort_loop fuel nodes ks queue order)
  unfolding sort_loop
  sort_loop_lem zero ks [] order h inv = (ks, inv)
  sort_loop_lem zero ks (n ∷ queue) order h inv = absurd (
      omega (
        arith,
        inv.total,
        length-append order (n ∷ queue),
        zeros-le-length ks,
        length-counted 0 (ids nodes order) (order ++ n ∷ queue) nodes ks inv.counted,
      ))
  sort_loop_lem (suc fuel) ks [] order h inv = (ks, inv)
  sort_loop_lem (suc fuel) ks (n ∷ queue) order h inv =
      let (low, q) = relax_lem 0 (id_at nodes n) nodes ks queue in
      rw (low, q)
        (sort_loop_lem fuel (lowered (id_at nodes n) nodes ks)
          (queue ++ wakes 0 (id_at nodes n) nodes ks) (order ++ n ∷ [])
          (omega (arith, length-append order (n ∷ [])))
          (LoopInv-step nodes unique n ks queue order inv))

  pub emit-LoopInv : (ks : List ℕ) × LoopInv nodes ks [] (emit nodes)
  unfolding emit
  emit-LoopInv =
      sort_loop_lem (length nodes) (indegrees nodes) (roots 0 (indegrees nodes)) [] (omega arith)
        (record {
          counted = roots-IsCounted 0 [] nodes (λ j below. refl);
          valid =
              roots-valid 0 (indegrees nodes) (length nodes)
                (omega (arith, length-map nodes (λ n. length n.dependencies)));
          total = length-roots 0 (indegrees nodes);
          placed = tt;
        })

-- Every node is listed once, and behind the nodes that it depends on.
pub record IsTopological (nodes : List Node) (order : List ℕ) : Type 0 where
  pub complete : (j : ℕ) → j < length nodes → count j order ≡ 1
  pub exact : length order ≡ length nodes
  pub placed : IsPlaced nodes [] order

all_zero :
    (i : ℕ) (seen : List Str) (listed : List ℕ) (ns : List Node) (ks : List ℕ) (j : ℕ)
    → IsCounted i seen listed ns ks
    → length ks ≤ zeros ks
    → j < length ns
    → count (i + j) listed ≡ 1
all_zero i seen listed [] ks j h full bound = elim bound [ ]
all_zero i seen listed (n ∷ ns) [] j h full bound = absurd h
all_zero i seen listed (n ∷ ns) (k ∷ ks) zero h full bound =
    let shift : i + 0 ≡ i = omega arith in
    let room = zeros-le-length ks in let once = h.1 in rw shift (ground arith)
all_zero i seen listed (n ∷ ns) (k ∷ ks) (suc j) h full bound =
    let shift : i + suc j ≡ suc i + j = omega arith in
    let room = zeros-le-length ks in
    rw shift (all_zero (suc i) seen listed ns ks j h.2 (ground arith) (omega arith))

pub emit_complete :
    (nodes : List Node) (ks : List ℕ)
    → LoopInv nodes ks [] (emit nodes)
    → length (emit nodes) ≡ length nodes
    → (j : ℕ) → j < length nodes
    → count j (emit nodes) ≡ 1
emit_complete nodes ks inv full j bound =
    let order = emit nodes in
    let none_left : order ++ [] ≡ order = append-nil order in
    let counted = rw none_left at (inv.counted) in
    let total = rw none_left at (inv.total) in
    let same = length-counted 0 (ids nodes order) order nodes ks counted in
    let shift : 0 + j ≡ j = omega arith in
    rw shift at (all_zero 0 (ids nodes order) order nodes ks j counted (omega arith) bound)

pub topological_order-parts :
    (g : Graph) (order : List ℕ)
    → topological_order g ≡ ok order
    → (order ≡ emit g.nodes) × (length (emit g.nodes) ≡ length g.nodes)
unfolding topological_order
topological_order-parts g order e = ground arith

-- In a graph whose nodes have distinct ids, an order that is returned lists every node once, behind
-- the nodes that it depends on.
pub topological_order-IsTopological :
    (g : Graph) (order : List ℕ)
    → HasUniqueIds g.nodes
    → topological_order g ≡ ok order
    → IsTopological g.nodes order
topological_order-IsTopological g order unique e =
    let (same, full) = topological_order-parts g order e in
    let (ks, inv) = emit-LoopInv g.nodes unique in
    rw same (record {
      complete = λ j bound. emit_complete g.nodes ks inv full j bound;
      exact = full;
      placed = inv.placed;
    })
