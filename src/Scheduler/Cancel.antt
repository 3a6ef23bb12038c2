-- ===== src/Scheduler/Cancel.antt =====
-- Cancellation: `dtg_executor_cancel` of src/dstudio_task_executor.c (what it writes in the node;
-- the signals that it sends are the system's), and `dtg_scheduler_process_cancelling` and
-- `dtg_scheduler_cancel` of src/dstudio_task_scheduler.c. The task table outside the graph, which
-- is told of the cancelled operation, is left out.
pub mod Settles
use dstudio.Base.{
  cstr_copy, ℕ, suc, Bool, true, false, not, ◌&&◌, ◌||◌, Option, some, none, Str, codes,
  if◌then◌else◌, ltb, get_elem?, length, set,
}
use dstudio.Graph.Types.{GraphState, NodeState, Node, Graph}
use dstudio.Graph.Transition.{graph_state_eq, graph_terminal, node_state_eq, node_terminal}
use dstudio.Store.Types.{Disk, Runtime}
use dstudio.Store.{store_graph_event, update_node}
use dstudio.Scheduler.{and_then, each, each_node, scheduler_set_node}

unfoldable pub executor_cancel : Str → Node → Node
executor_cancel reason n =
    let owned = ltb 0 n.native_pid in
    record n {
      native_cancel_requested = true;
      native_pid = 0;
      native_done = if owned then true else n.native_done;
      native_success = if owned then false else n.native_success;
      native_message = cstr_copy 511 reason;
    }

unfoldable pub executor_cancel_at : Runtime → ℕ → Str → Runtime
executor_cancel_at rt i reason = record rt {
  graph = update_node (executor_cancel reason) i rt.graph;
}

abbrev pub is_active : NodeState → Bool
is_active s = node_state_eq s NodeState.running || node_state_eq s NodeState.leased

-- The second half of a round: the node is not terminal, and neither running nor leased.
unfoldable pub settle_node : (ℕ → Disk) → ℕ → Node → Runtime → Bool × Runtime
settle_node disks i n rt =
    if node_state_eq n.state NodeState.cancelling
    then scheduler_set_node disks (executor_cancel_at rt i (codes "Task graph cancelled")) i
        (codes "node.cancelled") NodeState.cancelled (codes "Graph cancelled")
    else scheduler_set_node disks rt i (codes "node.cancelled") NodeState.cancelled
        (codes "Graph cancelled before dispatch")

-- The node as it stands in the runtime.
unfoldable pub settle_at : (ℕ → Disk) → ℕ → Runtime → Bool × Runtime
settle_at disks i rt = elim (get_elem? rt.graph.nodes i) [
  | none ↦ (true, rt)
  | some n ↦ settle_node disks i n rt
]

unfoldable pub cancel_node : (ℕ → Disk) → Runtime → ℕ → Bool × Runtime
cancel_node disks rt i = elim (get_elem? rt.graph.nodes i) [
  | none ↦ (true, rt)
  | some n ↦
      if node_terminal n.state
      then (true, rt)
      else if is_active n.state
      then and_then
          (scheduler_set_node disks rt i (codes "node.cancelling") NodeState.cancelling
            (codes "Graph cancellation requested"))
          (settle_at disks i)
      else settle_at disks i rt
]

unfoldable pub process_cancelling : (ℕ → Disk) → Runtime → Bool × Runtime
process_cancelling disks rt =
    if not (graph_state_eq rt.graph.state GraphState.cancelling)
    then (true, rt)
    else and_then (each_node (cancel_node disks) rt) λ rt'.
      store_graph_event disks rt' (codes "graph.cancelled") GraphState.cancelled rt'.graph.approved
        (codes "Graph cancellation settled")

-- A node of a graph that has not started.
unfoldable pub drop_node : (ℕ → Disk) → Runtime → ℕ → Bool × Runtime
drop_node disks rt i = elim (get_elem? rt.graph.nodes i) [
  | none ↦ (true, rt)
  | some n ↦
      if node_terminal n.state
      then (true, rt)
      else scheduler_set_node disks rt i (codes "node.cancelled") NodeState.cancelled
          (codes "Graph cancelled before start")
]

abbrev pub not_started : GraphState → Bool
not_started s =
    graph_state_eq s GraphState.draft
    || graph_state_eq s GraphState.validated
    || graph_state_eq s GraphState.ready

unfoldable pub scheduler_cancel : (ℕ → Disk) → Runtime → Bool × Runtime
scheduler_cancel disks rt =
    if graph_terminal rt.graph.state
    then (false, rt)
    else if not_started rt.graph.state
    then and_then (each_node (drop_node disks) rt) (λ rt'.
      store_graph_event disks rt' (codes "graph.cancelled") GraphState.cancelled rt'.graph.approved
        (codes "Graph cancelled"))
    else and_then
        (store_graph_event disks rt (codes "graph.cancelling") GraphState.cancelling
          rt.graph.approved (codes "Cancellation requested"))
        (process_cancelling disks)
