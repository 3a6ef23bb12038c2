-- ===== src/Scheduler/Ready.antt =====
-- Readiness in src/dstudio_task_scheduler.c: which dependencies are satisfied, which nodes may be
-- dispatched, and which of them is next. `can_dispatch` is `dtg_executor_can_dispatch`, and
-- `registry` holds the graphs in use, the one at hand among them.
pub mod Choice
use dstudio.Base.{
  ℕ, zero, suc, ◌+◌, Bool, true, false, not, ◌&&◌, ◌||◌, List, [], ◌∷◌, Option, some, none, Str,
  codes, if◌then◌else◌, ◌==◌, ltb, leb, any, get_elem?,
}
use dstudio.Graph.Types.{
  Condition, dep_terminal, dep_succeeded, ℤ, pos, negsuc, NodeKind, NodeState, Mutation, Dependency,
  Node, Graph,
}
use dstudio.Graph.Kinds.{kind_eq, mutation_eq}
use dstudio.Graph.Transition.{node_state_eq, node_terminal}
use dstudio.Graph.Validate.{find_node}
use dstudio.Store.Types.{Disk, Runtime}
use dstudio.Scheduler.{and_then, each_node, scheduler_set_node}

-- Whether a dependency is satisfied, and whether it has failed for good.
unfoldable pub source_satisfied : Condition → NodeState → Bool × Bool
source_satisfied dep_terminal s = (node_terminal s, false)
source_satisfied dep_succeeded s =
    if node_state_eq s NodeState.succeeded || node_state_eq s NodeState.skipped
    then (true, false)
    else (false, node_terminal s)

unfoldable pub dependency_satisfied : List Node → Dependency → Bool × Bool
dependency_satisfied nodes d = elim (find_node nodes d.node_id) [
  | none ↦ (false, true)
  | some source ↦ source_satisfied d.condition source.state
]

-- `all` and `permanent` behind the loop over the dependencies.
unfoldable pub weigh_dependencies : List Node → List Dependency → Bool × Bool
weigh_dependencies nodes [] = (true, false)
weigh_dependencies nodes (d ∷ ds) =
    let here = dependency_satisfied nodes d in
    let rest = weigh_dependencies nodes ds in (here.0 && rest.0, here.1 || rest.1)

unfoldable pub ready_node : (ℕ → Disk) → Runtime → ℕ → Bool × Runtime
ready_node disks rt i = elim (get_elem? rt.graph.nodes i) [
  | none ↦ (true, rt)
  | some n ↦
      let weighed = weigh_dependencies rt.graph.nodes n.dependencies in
      let blocked = node_state_eq n.state NodeState.blocked in
      if not (node_state_eq n.state NodeState.pending) && not blocked
      then (true, rt)
      else if weighed.1 && not blocked
      then scheduler_set_node disks rt i (codes "node.blocked") NodeState.blocked
          (codes "A required dependency did not succeed")
      else if not weighed.1 && weighed.0
      then and_then
          (if blocked
            then scheduler_set_node disks rt i (codes "node.unblocked") NodeState.pending
                (codes "Dependencies changed")
            else (true, rt))
          (λ rt'.
            scheduler_set_node disks rt' i (codes "node.ready") NodeState.ready
              (codes "Dependencies satisfied"))
      else (true, rt)
]

unfoldable pub recompute_ready : (ℕ → Disk) → Runtime → Bool × Runtime
recompute_ready disks rt = each_node (ready_node disks) rt

abbrev pub is_writer : Node → Bool
is_writer n =
    mutation_eq n.mutation Mutation.workspace_write
    || mutation_eq n.mutation Mutation.external_side_effect

-- A node that `dtg_graph_running_nodes` counts; `kind_invalid` stands for every kind.
unfoldable pub is_running : NodeKind → Bool → Node → Bool
is_running kind writers_only n =
    (node_state_eq n.state NodeState.running
      || node_state_eq n.state NodeState.leased
      || node_state_eq n.state NodeState.cancelling)
    && (kind_eq kind NodeKind.kind_invalid || kind_eq n.kind kind)
    && (not writers_only || is_writer n)

unfoldable pub running_nodes : NodeKind → Bool → List Node → ℕ
running_nodes kind writers_only [] = 0
running_nodes kind writers_only (n ∷ ns) =
    (if is_running kind writers_only n then 1 else 0) + running_nodes kind writers_only ns

unfoldable pub global_llm_busy : List Graph → Bool
global_llm_busy registry =
    any (λ g. not (running_nodes NodeKind.agent_turn false g.nodes == 0)) registry

unfoldable pub global_writer_busy : List Graph → Bool
global_writer_busy registry =
    any (λ g. not (running_nodes NodeKind.kind_invalid true g.nodes == 0)) registry

-- The tests of `dtg_scheduler_next_ready` that may pass a node over.
unfoldable pub may_dispatch : (Node → Bool) → List Graph → Graph → Node → Bool
may_dispatch can_dispatch registry g n =
    node_state_eq n.state NodeState.ready
    && can_dispatch n
    && not (kind_eq n.kind NodeKind.agent_turn && global_llm_busy registry)
    && not (is_writer n && global_writer_busy registry)
    && not (
        kind_eq n.kind NodeKind.host_tool
        && leb g.max_parallel_host_nodes (running_nodes NodeKind.host_tool false g.nodes))

unfoldable pub node_class : Node → ℕ
node_class n =
    if kind_eq n.kind NodeKind.gate || kind_eq n.kind NodeKind.approval
    then 2
    else if kind_eq n.kind NodeKind.join
    then 1
    else 0

unfoldable pub ltℤ : ℤ → ℤ → Bool
ltℤ (pos a) (pos b) = ltb a b
ltℤ (pos a) (negsuc b) = false
ltℤ (negsuc a) (pos b) = true
ltℤ (negsuc a) (negsuc b) = ltb b a

unfoldable pub eqℤ : ℤ → ℤ → Bool
eqℤ (pos a) (pos b) = a == b
eqℤ (pos a) (negsuc b) = false
eqℤ (negsuc a) (pos b) = false
eqℤ (negsuc a) (negsuc b) = a == b

-- The class comes first, then the priority, then the time at which a node was ready.
unfoldable pub outranks : Node → Node → Bool
outranks n best =
    ltb (node_class best) (node_class n)
    || node_class n == node_class best && ltℤ best.priority n.priority
    || node_class n == node_class best
      && eqℤ n.priority best.priority
      && ltb n.ready_ms best.ready_ms

-- `!best || ...`
unfoldable pub beats : Node → Option (ℕ × Node) → Bool
beats n none = true
beats n (some (i, best)) = outranks n best

-- The loop from node `i` on, with the best node so far and its index.
unfoldable pub pick : (Node → Bool) → ℕ → List Node → Option (ℕ × Node) → Option (ℕ × Node)
pick may i [] best = best
pick may i (n ∷ ns) best = pick may (suc i) ns (if may n && beats n best then some (i, n) else best)

unfoldable pub next_ready : (Node → Bool) → List Graph → Graph → Option (ℕ × Node)
next_ready can_dispatch registry g = pick (may_dispatch can_dispatch registry g) 0 g.nodes none
