-- ===== src/Scheduler/Commands.antt =====
-- The user's commands in src/dstudio_task_scheduler.c, cancel aside. `scheduler_start` is
-- `dtg_scheduler_start` up to the tick of the whole registry with which it ends.
use dstudio.Base.{
  ℕ, Bool, true, false, not, ◌&&◌, ◌||◌, List, [], ◌∷◌, Option, some, none, Str, codes, str_eq,
  if◌then◌else◌, ltb, get_elem?,
}
use dstudio.Graph.Types.{GraphState, NodeState, NodeKind, Mutation, Dependency, Node}
use dstudio.Graph.Kinds.{kind_eq, mutation_eq}
use dstudio.Graph.Transition.{graph_state_eq, node_state_eq}
use dstudio.Store.Types.{Disk, Runtime}
use dstudio.Store.{store_graph_event, store_node_event}
use dstudio.Store.Replay.{node_index}
use dstudio.Scheduler.{and_then, each_node, scheduler_set_node}
use dstudio.Scheduler.Executor.{Executor}
use dstudio.Scheduler.Run.{end_attempt, is_goal, with_node, without_attempt}
use dstudio.Scheduler.Tick.{when_state}

unfoldable pub enter_node : (ℕ → Disk) → Runtime → ℕ → Bool × Runtime
enter_node disks rt i =
    with_node i
      (when_state NodeState.draft (λ rt'.
        scheduler_set_node disks rt' i (codes "node.pending") NodeState.pending
          (codes "Node entered the scheduler")))
      rt

unfoldable pub scheduler_start : (ℕ → Disk) → Executor → Runtime → Bool × Runtime
scheduler_start disks ex rt =
    if rt.corrupt
      || rt.graph.approval_required && not rt.graph.approved
      || not (graph_state_eq rt.graph.state GraphState.ready)
      || not (ex.graph_available rt.graph)
      || not (ex.context_preflight rt.graph)
    then (false, rt)
    else and_then
        (store_graph_event disks rt (codes "graph.started") GraphState.running rt.graph.approved
          (codes "Graph execution started"))
        (each_node (enter_node disks))

unfoldable pub scheduler_pause : (ℕ → Disk) → Runtime → Bool × Runtime
scheduler_pause disks rt =
    if graph_state_eq rt.graph.state GraphState.running
    then store_graph_event disks rt (codes "graph.pausing") GraphState.pausing rt.graph.approved
        (codes "Pause requested")
    else (false, rt)

-- The node that a command names, which the command may refuse.
abbrev pub on_node :
    (Node → Bool) → (ℕ → Node → Runtime → Bool × Runtime) → Str → Runtime → Bool × Runtime
on_node admits step id rt = elim (node_index 0 rt.graph.nodes id) [
  | none ↦ (false, rt)
  | some i ↦ elim (get_elem? rt.graph.nodes i) [
    | none ↦ (false, rt)
    | some n ↦ if admits n then step i n rt else (false, rt)
  ]
]

-- The goal node of the graph, if it has one.
unfoldable pub find_goal : List Node → Option (ℕ × Node)
find_goal nodes = elim (node_index 0 nodes (codes "goal")) [
  | none ↦ none
  | some i ↦ elim (get_elem? nodes i) [
    | none ↦ none
    | some n ↦ if is_goal n then some (i, n) else none
  ]
]

-- A gate that waits for the goal alone.
abbrev pub hangs_on : Str → List Dependency → Bool
hangs_on id [] = false
hangs_on id (d ∷ []) = str_eq d.node_id id
hangs_on id (d ∷ d' ∷ ds) = false

unfoldable pub reopen_gate : (ℕ → Disk) → Str → Runtime → ℕ → Bool × Runtime
reopen_gate disks id rt i =
    with_node i
      (λ n rt'.
        if node_state_eq n.state NodeState.blocked && hangs_on id n.dependencies
        then scheduler_set_node disks rt' i (codes "node.pending") NodeState.pending
            (codes "Goal continuation awaits new evidence")
        else (true, rt'))
      rt

-- A failed goal with turns left is planned again.
unfoldable pub reopen_goal : (ℕ → Disk) → ℕ → Node → Runtime → Bool × Runtime
reopen_goal disks i n rt =
    if not (node_state_eq n.state NodeState.failed)
    then (true, rt)
    else if not (ltb n.attempts_started n.max_attempts)
    then (false, rt)
    else store_node_event disks rt i (codes "goal.resume_requested")
        (without_attempt n NodeState.pending)
        (codes "User requested goal continuation; revalidate current workspace")

unfoldable pub reopen_gates : (ℕ → Disk) → Node → Runtime → Bool × Runtime
reopen_gates disks n rt =
    if node_state_eq n.state NodeState.pending
    then each_node (reopen_gate disks n.id) rt
    else (true, rt)

unfoldable pub prepare_goal : (ℕ → Disk) → Option (ℕ × Node) → Runtime → Bool × Runtime
prepare_goal disks none rt = (true, rt)
prepare_goal disks (some (i, n)) rt =
    and_then (reopen_goal disks i n rt) (with_node i (reopen_gates disks))

unfoldable pub wake_node : (ℕ → Disk) → Runtime → ℕ → Bool × Runtime
wake_node disks rt i =
    with_node i
      (when_state NodeState.paused (λ rt'.
        scheduler_set_node disks rt' i (codes "node.ready") NodeState.ready
          (codes "Graph resumed")))
      rt

-- The graph runs again, and its paused nodes are ready.
unfoldable pub resume_graph : (ℕ → Disk) → Runtime → Bool × Runtime
resume_graph disks rt =
    and_then
      (store_graph_event disks rt (codes "graph.resumed") GraphState.running rt.graph.approved
        (codes "Graph resumed"))
      (each_node (wake_node disks))

abbrev pub goal_waiting : Option (ℕ × Node) → GraphState → Bool
goal_waiting none s = false
goal_waiting (some goal) s = graph_state_eq s GraphState.needs_input

unfoldable pub scheduler_resume : (ℕ → Disk) → Executor → Runtime → Bool × Runtime
scheduler_resume disks ex rt =
    let goal = find_goal rt.graph.nodes in
    if not (graph_state_eq rt.graph.state GraphState.paused)
        && not (goal_waiting goal rt.graph.state)
      || not (ex.context_preflight rt.graph)
    then (false, rt)
    else and_then (prepare_goal disks goal rt) (resume_graph disks)

unfoldable pub scheduler_approve_graph : (ℕ → Disk) → Executor → Runtime → Bool × Runtime
scheduler_approve_graph disks ex rt =
    if not rt.graph.approval_required
      || rt.graph.approved
      || not (graph_state_eq rt.graph.state GraphState.validated)
      || not (ex.approval_receipt rt none)
    then (false, rt)
    else store_graph_event disks rt (codes "graph.approved") GraphState.ready true
        (codes "Graph approved by user")

unfoldable pub grant_node : (ℕ → Disk) → Executor → ℕ → Node → Runtime → Bool × Runtime
grant_node disks ex i n rt =
    if not (ex.approval_receipt rt (some i)) || not (ex.attempt_result rt i)
    then (false, rt)
    else and_then
        (store_node_event disks rt i (codes "node.approved") (end_attempt n NodeState.succeeded)
          (codes "Node approved by user"))
        (λ rt'.
          if graph_state_eq rt'.graph.state GraphState.waiting_approval
          then store_graph_event disks rt' (codes "graph.resumed_after_approval") GraphState.running
              rt'.graph.approved (codes "Approval granted")
          else (true, rt'))

abbrev pub awaits_approval : Node → Bool
awaits_approval n =
    kind_eq n.kind NodeKind.approval && node_state_eq n.state NodeState.waiting_approval

unfoldable pub scheduler_approve_node : (ℕ → Disk) → Executor → Str → Runtime → Bool × Runtime
scheduler_approve_node disks ex = on_node awaits_approval (grant_node disks ex)

abbrev pub may_retry : Node → Bool
may_retry n =
    node_state_eq n.state NodeState.failed
    && ltb n.attempts_started n.max_attempts
    && (n.idempotent || mutation_eq n.mutation Mutation.read_only)

unfoldable pub retry_at : (ℕ → Disk) → ℕ → Node → Runtime → Bool × Runtime
retry_at disks i n rt =
    store_node_event disks rt i (codes "node.retry_requested") (without_attempt n NodeState.pending)
      (codes "Explicit retry requested")

unfoldable pub scheduler_retry_node : (ℕ → Disk) → Str → Runtime → Bool × Runtime
scheduler_retry_node disks = on_node may_retry (retry_at disks)

abbrev pub may_skip : Node → Bool
may_skip n =
    n.optional
    && (node_state_eq n.state NodeState.pending
        || node_state_eq n.state NodeState.ready
        || node_state_eq n.state NodeState.blocked)

unfoldable pub skip_at : (ℕ → Disk) → ℕ → Node → Runtime → Bool × Runtime
skip_at disks i n rt =
    store_node_event disks rt i (codes "node.skipped") (end_attempt n NodeState.skipped)
      (codes "Optional node skipped")

unfoldable pub scheduler_skip_node : (ℕ → Disk) → Str → Runtime → Bool × Runtime
scheduler_skip_node disks = on_node may_skip (skip_at disks)
