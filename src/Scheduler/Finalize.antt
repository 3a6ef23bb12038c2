-- ===== src/Scheduler/Finalize.antt =====
-- `dtg_scheduler_finalize_graph` of src/dstudio_task_scheduler.c.
pub mod Verdict
use dstudio.Base.{ℕ, Bool, true, false, not, ◌&&◌, ◌||◌, List, Str, codes, if◌then◌else◌, any}
use dstudio.Graph.Types.{GraphState, NodeState, Node, Graph}
use dstudio.Graph.Transition.{graph_state_eq, node_state_eq, node_terminal}
use dstudio.Store.Types.{Disk, Runtime}
use dstudio.Store.{store_graph_event}

abbrev pub unfinished : List Node → Bool
unfinished nodes = any (λ n. not (node_terminal n.state)) nodes

abbrev pub required_failure : List Node → Bool
required_failure nodes =
    any
      (λ n.
        not n.optional
        && (node_state_eq n.state NodeState.failed
            || node_state_eq n.state NodeState.cancelled
            || node_state_eq n.state NodeState.blocked))
      nodes

abbrev pub failure_message : Str
failure_message = codes "A required node failed or became blocked"

unfoldable pub finalize_graph : (ℕ → Disk) → Runtime → Bool × Runtime
finalize_graph disks rt =
    let g = rt.graph in
    let running = graph_state_eq g.state GraphState.running in
    if required_failure g.nodes && running
    then store_graph_event disks (record rt { graph = record g { error = failure_message } })
        (codes "graph.failed") GraphState.failed g.approved failure_message
    else if not (unfinished g.nodes) && running
    then store_graph_event disks rt (codes "graph.succeeded") GraphState.succeeded g.approved
        (codes "All required nodes completed")
    else (true, rt)
