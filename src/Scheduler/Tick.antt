-- ===== src/Scheduler/Tick.antt =====
-- `dtg_scheduler_tick` of src/dstudio_task_scheduler.c for one runtime of the registry; `others`
-- are the graphs of the other runtimes in use. A function that fails leaves a message in `err`,
-- which ends the runtime's turn.
use dstudio.Base.{
  ℕ, zero, suc, ◌-◌, Bool, true, false, not, ◌&&◌, List, ◌∷◌, some, none, codes, str_eq, is_empty,
  if◌then◌else◌, ◌==◌, ltb,
}
use dstudio.Graph.Types.{GraphState, NodeState, NodeKind, Node, Graph}
use dstudio.Graph.Kinds.{kind_eq}
use dstudio.Graph.Transition.{graph_state_eq, node_state_eq}
use dstudio.Store.Types.{Disk, Runtime}
use dstudio.Store.{store_graph_event, update_node}
use dstudio.Scheduler.{and_then, each_node, scheduler_set_node}
use dstudio.Scheduler.Cancel.{executor_cancel_at, process_cancelling}
use dstudio.Scheduler.Executor.{Executor}
use dstudio.Scheduler.Finalize.{finalize_graph}
use dstudio.Scheduler.Ready.{next_ready, recompute_ready, running_nodes}
use dstudio.Scheduler.Run.{finish_node, scheduler_dispatch, with_node}

abbrev pub when_state : NodeState → (Runtime → Bool × Runtime) → Node → Runtime → Bool × Runtime
when_state s step n rt = elim (node_state_eq n.state s) [ true ↦ step rt | false ↦ (true, rt) ]

-- A draft of a graph that was started before a crash.
unfoldable pub init_node : (ℕ → Disk) → Runtime → ℕ → Bool × Runtime
init_node disks rt i =
    with_node i
      (when_state NodeState.draft (λ rt'.
        scheduler_set_node disks rt' i (codes "node.pending") NodeState.pending
          (codes "Recovered scheduler initialization")))
      rt

-- An attempt that no executor of this process carries.
unfoldable pub is_orphan : Executor → Runtime → ℕ → Node → Bool
is_orphan ex rt i n =
    str_eq rt.graph.executor_mode (codes "native")
    && not n.native_done
    && n.native_pid == 0
    && not (ex.owns rt i)
    && not (kind_eq n.kind NodeKind.approval)
    && is_empty n.native_message

abbrev pub interrupt : Node → Node
interrupt n = record n {
  native_done = true;
  native_success = false;
  native_message = codes "Attempt interrupted by host restart; no live executor lease exists";
}

unfoldable pub mark_orphan : Executor → ℕ → Node → Runtime → Runtime
mark_orphan ex i n rt =
    if is_orphan ex rt i n then record rt { graph = update_node interrupt i rt.graph } else rt

abbrev pub is_late : ℕ → Node → Bool
is_late now n = ltb 0 n.timeout_ms && ltb 0 n.started_ms && ltb n.timeout_ms (now - n.started_ms)

unfoldable pub stop_late : ℕ → ℕ → Node → Runtime → Runtime
stop_late now i n rt =
    if is_late now n then executor_cancel_at rt i (codes "Node timeout reached") else rt

unfoldable pub poll_running : (ℕ → Disk) → Executor → ℕ → ℕ → Node → Runtime → Bool × Runtime
poll_running disks ex now i n rt =
    finish_node disks ex now (stop_late now i n (mark_orphan ex i n rt)) i

unfoldable pub poll_node : (ℕ → Disk) → Executor → ℕ → Runtime → ℕ → Bool × Runtime
poll_node disks ex now rt i =
    with_node i (λ n. when_state NodeState.running (poll_running disks ex now i n) n) rt

-- `while (budget-- > 0)`
unfoldable pub dispatch_loop : (ℕ → Disk) → Executor → List Graph → ℕ → ℕ → Runtime → Bool × Runtime
dispatch_loop disks ex others now zero rt = (true, rt)
dispatch_loop disks ex others now (suc budget) rt =
    elim (next_ready ex.can_dispatch (rt.graph ∷ others) rt.graph) [
      | none ↦ (true, rt)
      | some (i, n) ↦ and_then (scheduler_dispatch disks ex now rt i) (λ rt'.
          elim (graph_state_eq rt'.graph.state GraphState.running) [
            | false ↦ (true, rt')
            | true ↦ dispatch_loop disks ex others now budget rt'
          ])
    ]

-- The phases of a turn, the last first.
unfoldable pub tick_dispatch : (ℕ → Disk) → Executor → List Graph → ℕ → Runtime → Bool × Runtime
tick_dispatch disks ex others now rt =
    and_then (dispatch_loop disks ex others now 32 rt) (finalize_graph disks)

unfoldable pub tick_ready : (ℕ → Disk) → Executor → List Graph → ℕ → Runtime → Bool × Runtime
tick_ready disks ex others now rt =
    and_then (recompute_ready disks rt) (tick_dispatch disks ex others now)

unfoldable pub tick_poll : (ℕ → Disk) → Executor → List Graph → ℕ → Runtime → Bool × Runtime
tick_poll disks ex others now rt =
    and_then (each_node (poll_node disks ex now) rt) (tick_ready disks ex others now)

unfoldable pub tick_running : (ℕ → Disk) → Executor → List Graph → ℕ → Runtime → Bool × Runtime
tick_running disks ex others now rt =
    and_then (each_node (init_node disks) rt) (tick_poll disks ex others now)

-- While a graph is pausing its attempts may end.
unfoldable pub drain_node : (ℕ → Disk) → Executor → ℕ → Runtime → ℕ → Bool × Runtime
drain_node disks ex now rt i =
    with_node i (when_state NodeState.running (λ rt'. finish_node disks ex now rt' i)) rt

unfoldable pub pause_node : (ℕ → Disk) → Runtime → ℕ → Bool × Runtime
pause_node disks rt i =
    with_node i
      (when_state NodeState.ready (λ rt'.
        scheduler_set_node disks rt' i (codes "node.paused") NodeState.paused
          (codes "Graph paused")))
      rt

unfoldable pub close_pause : (ℕ → Disk) → Runtime → Runtime
close_pause disks rt =
    (store_graph_event disks rt (codes "graph.paused") GraphState.paused rt.graph.approved
      (codes "Graph paused")).1

unfoldable pub settle_pause : (ℕ → Disk) → Runtime → Runtime
settle_pause disks rt =
    if running_nodes NodeKind.kind_invalid false rt.graph.nodes == 0
    then close_pause disks (each_node (pause_node disks) rt).1
    else rt

unfoldable pub tick_pausing : (ℕ → Disk) → Executor → ℕ → Runtime → Runtime
tick_pausing disks ex now rt = settle_pause disks (each_node (drain_node disks ex now) rt).1

unfoldable pub scheduler_tick : (ℕ → Disk) → Executor → List Graph → ℕ → Runtime → Runtime
scheduler_tick disks ex others now rt =
    if rt.corrupt
    then rt
    else if graph_state_eq rt.graph.state GraphState.cancelling
    then (process_cancelling disks rt).1
    else if graph_state_eq rt.graph.state GraphState.pausing
    then tick_pausing disks ex now rt
    else if graph_state_eq rt.graph.state GraphState.running
    then (tick_running disks ex others now rt).1
    else rt
