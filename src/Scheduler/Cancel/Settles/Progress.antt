-- ===== src/Scheduler/Cancel/Settles/Progress.antt =====
-- A loop over the nodes that settles them one by one.
use dstudio.Base.{
  ℕ, zero, suc, ◌+◌, ◌<◌, ◌≤◌, ◌≡◌, ◌≢◌, inl, inr, refl, sym, subst, ==_iff, ◌∙◌, ap, Bool, true,
  some, arith, Bool-cases, get_elem?, get_elem?-set, get_elem?-set-other, get_elem?-lt, ◌==◌,
  length, set, List,
}
use dstudio.Graph.Types.{Node}
use dstudio.Store.Types.{Runtime}
use dstudio.Scheduler.{each, each_node}
use dstudio.Scheduler.Cancel.Settles.{Ends, IsSettled, and_then-true}

-- Node by node, how the nodes below index `k` have ended.
abbrev pub EndsBelow : ℕ → List Node → List Node → Type 0
EndsBelow k nodes nodes' =
    (j : ℕ) (n : Node)
    → j < k
    → get_elem? nodes j ≡ some n
    → (m : Node) × (get_elem? nodes' j ≡ some m) × Ends n m

-- The loop before node `k`, in a run that started from `rt₀`.
pub record Progress (rt₀ rt : Runtime) (k : ℕ) : Type 0 where
  pub state : rt.graph.state ≡ rt₀.graph.state
  pub below : EndsBelow k rt₀.graph.nodes rt.graph.nodes
  pub above : (j : ℕ) → k ≤ j → get_elem? rt.graph.nodes j ≡ get_elem? rt₀.graph.nodes j

next-Progress :
    (rt₀ rt rt' : Runtime) (i : ℕ) (n m : Node)
    → get_elem? rt₀.graph.nodes i ≡ some n
    → Progress rt₀ rt i
    → Ends n m
    → rt'.graph.nodes ≡ set rt.graph.nodes i m
    → rt'.graph.state ≡ rt.graph.state
    → Progress rt₀ rt' (suc i)
next-Progress rt₀ rt rt' i n m e p ends nodes state =
    let here : get_elem? rt.graph.nodes i ≡ some n = p.above i (omega arith) ∙ e in
    let now_i : get_elem? rt'.graph.nodes i ≡ some m =
      ap (λ ns. get_elem? ns i) nodes ∙ get_elem?-set rt.graph.nodes i n m here in
    let now_other : (j : ℕ) → i ≢ j → get_elem? rt'.graph.nodes j ≡ get_elem? rt.graph.nodes j =
      λ j h. ap (λ ns. get_elem? ns j) nodes ∙ get_elem?-set-other rt.graph.nodes i j m h in
    record {
      state = state ∙ p.state;
      below = λ j x lt at_j. elim (Bool-cases (j == i)) [
        | inl same ↦
            let eq : j ≡ i = (==_iff j i).0 same in
            let swapped : get_elem? rt₀.graph.nodes i ≡ some x = rw eq at at_j in
            let twin : n ≡ x = cc in (m, rw eq now_i, subst (λ y. Ends y m) twin ends)
        | inr other ↦
            let apart : i ≢ j = λ h. let hit = (==_iff j i).1 (sym h) in cc in
            let (y, at_y, ends_y) = p.below j x (omega (arith, apart)) at_j in
            (y, now_other j apart ∙ at_y, ends_y)
      ];
      above = λ j le. now_other j (λ h. omega (arith, h, le)) ∙ p.above j (omega (arith, le));
    }

module _ (P : Node → Type 0) (step : Runtime → ℕ → Bool × Runtime)
    (settles : (rt : Runtime) (i : ℕ) (n : Node)
      → get_elem? rt.graph.nodes i ≡ some n
      → P n
      → IsSettled rt i n (step rt i))
    (rt₀ : Runtime) (proper : (j : ℕ) (n : Node) → get_elem? rt₀.graph.nodes j ≡ some n → P n) where
  each-Progress :
      (i k : ℕ) (rt : Runtime)
      → i + k ≡ length rt₀.graph.nodes
      → Progress rt₀ rt i
      → ((each step i k rt).0 ≡ true) × Progress rt₀ (each step i k rt).1 (i + k)
  unfolding each
  each-Progress i zero rt bound p = let same : i + 0 ≡ i = omega arith in (refl, rw same p)
  each-Progress i (suc k) rt bound p =
      let (n, e) = get_elem?-lt rt₀.graph.nodes i (omega (arith, bound)) in
      let here : get_elem? rt.graph.nodes i ≡ some n = p.above i (omega arith) ∙ e in
      let s = settles rt i n here (proper i n e) in
      let next = next-Progress rt₀ rt (step rt i).1 i n s.node e p s.ends s.nodes s.graph_state in
      let chained = and_then-true (step rt i) (λ rt'. each step (suc i) k rt') s.done in
      let shift : i + suc k ≡ suc i + k = omega arith in
      rw (each, chained, shift) (each-Progress (suc i) k (step rt i).1 (omega (arith, bound)) next)

  pub each_node-Progress :
      ((each_node step rt₀).0 ≡ true) × Progress rt₀ (each_node step rt₀).1 (length rt₀.graph.nodes)
  each_node-Progress =
      let start : Progress rt₀ rt₀ 0 = record {
        state = refl;
        below = λ j n lt. absurd (omega (arith, lt));
        above = λ j le. refl;
      } in
      let shift : 0 + length rt₀.graph.nodes ≡ length rt₀.graph.nodes = omega arith in
      let (done, p) = each-Progress 0 (length rt₀.graph.nodes) rt₀ shift start in
      (done, rw shift at p)
