-- ===== src/Graph/Order.antt =====
-- `dtg_topological_order` of src/dstudio_task_graph.c: Kahn's algorithm over an array of
-- indegrees and a queue of node indices. The queue array keeps what was popped; here `order` does.
pub mod Loop
pub mod Invariant
pub mod Counts
pub mod Sound
pub mod Acyclic
pub mod Ranked
use dstudio.Base.{
  ℕ, zero, suc, ◌+◌, ◌-◌, Bool, true, false, not, ◌&&◌, ◌||◌, List, [], ◌∷◌, ◌++◌, map, some, none,
  Str, str_eq, if◌then◌else◌, ◌==◌, ltb, length, get_elem?, Outcome, ok, err,
}
use dstudio.Graph.Types.{Dependency, Node, Graph}
use dstudio.Graph.Errors.{GraphError, unexplained, dependency_cycle}

abbrev pub max_nodes : ℕ
max_nodes = 256

-- `g->nodes[i].id`, for an index in range.
unfoldable pub id_at : List Node → ℕ → Str
id_at nodes i = elim (get_elem? nodes i) [ none ↦ [] | some n ↦ n.id ]

-- The loop over the dependencies of node `i` that name the popped node: its indegree `k`, and the
-- queue. `indegree[i] && --indegree[i] == 0` leaves an indegree of 0 alone.
unfoldable pub settle : ℕ → Str → List Dependency → ℕ → List ℕ → ℕ × List ℕ
settle i id [] k queue = (k, queue)
settle i id (d ∷ ds) k queue =
    let hit = str_eq d.node_id id && not (k == 0) in
    settle i id ds (if hit then k - 1 else k) (if hit && k - 1 == 0 then queue ++ i ∷ [] else queue)

-- The loop over the nodes from index `i` on, with their indegrees.
unfoldable pub relax : ℕ → Str → List Node → List ℕ → List ℕ → List ℕ × List ℕ
unfolding settle
relax i id [] ks queue = ([], queue)
relax i id (n ∷ ns) [] queue = ([], queue)
relax i id (n ∷ ns) (k ∷ ks) queue =
    let (k', queue') = settle i id n.dependencies k queue in
    let (ks', queue'') = relax (suc i) id ns ks queue' in (k' ∷ ks', queue'')

-- `while (qh < qt)`. Each round emits a node, so the number of nodes is fuel enough.
unfoldable pub sort_loop : ℕ → List Node → List ℕ → List ℕ → List ℕ → List ℕ
unfolding relax id_at
sort_loop zero nodes ks queue order = order
sort_loop (suc fuel) nodes ks [] order = order
sort_loop (suc fuel) nodes ks (n ∷ queue) order =
    let (ks', queue') = relax 0 (id_at nodes n) nodes ks queue in
    sort_loop fuel nodes ks' queue' (order ++ n ∷ [])

abbrev pub indegrees : List Node → List ℕ
indegrees nodes = map (λ n. length n.dependencies) nodes

-- `if (!indegree[i]) queue[qt++] = i;`
unfoldable pub roots : ℕ → List ℕ → List ℕ
roots i [] = []
roots i (k ∷ ks) = if k == 0 then i ∷ roots (suc i) ks else roots (suc i) ks

unfoldable pub emit : List Node → List ℕ
unfolding sort_loop roots
emit nodes = sort_loop (length nodes) nodes (indegrees nodes) (roots 0 (indegrees nodes)) []

-- The order is what the caller's array receives.
unfoldable pub topological_order : Graph → Outcome GraphError (List ℕ)
topological_order g =
    let order = emit g.nodes in
    if length g.nodes == 0 || ltb max_nodes (length g.nodes)
    then err unexplained
    else if not (length order == length g.nodes)
    then err dependency_cycle
    else ok order
