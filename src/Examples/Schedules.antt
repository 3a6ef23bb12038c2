-- ===== src/Examples/Schedules.antt =====
-- The theorems about the store and the scheduler at concrete inputs.
use dstudio.Base.{
  arith, List, Option, ℕ, some, ◌+◌, ◌≡◌, subst, refl, true, false, [], ◌∷◌, codes, str_eq, zero,
  suc,
}
use dstudio.Graph.Types.{GraphState, NodeState, Graph}
use dstudio.Graph.Names.{graph_state_name, node_state_name}
use dstudio.Graph.Transition.{graph_state_eq, graph_terminal, node_state_eq}
use dstudio.Store.Types.{appended, Disk, NodeChange, Runtime}
use dstudio.Store.{node_after, node_event, store_node_event}
use dstudio.Store.Replay.{
  apply_lines, event_reads, node_reads, replay_events, reset_graph, reset_node,
}
use dstudio.Store.Replay.Restores.{IsAtomic, IsRestored}
use dstudio.Store.Replay.Restores.OfNodes.{store_node_event-IsAtomic}
use dstudio.Store.Registry.{registry_allocate}
use dstudio.Store.Registry.Eviction.{IsAllocated, registry_allocate-IsAllocated}
use dstudio.Scheduler.Healthy.{IsHealthy}
use dstudio.Scheduler.Cancel.{not_started, scheduler_cancel}
use dstudio.Scheduler.Cancel.Settles.Whole.{
  AllNodes, IsCancelled, IsEarlyNode, IsProperNode, scheduler_cancel-IsCancelled,
}
use dstudio.Scheduler.Ready.{may_dispatch, next_ready}
use dstudio.Scheduler.Ready.Choice.{IsChoice, next_ready-IsChoice}
use dstudio.Scheduler.Finalize.{finalize_graph}
use dstudio.Scheduler.Finalize.Verdict.{IsJudged, finalize_graph-IsJudged}
use dstudio.Examples.Samples.{checker, sample, writer}
use dstudio.Examples.Graphs.{sample-IsWellFormed}

abbrev pub disks : ℕ → Disk
disks k = record {
  lock_free = true;
  clock = 1000 + k;
  append = appended;
  bytes = 200;
  snapshot = true;
}

abbrev pub runtime : Graph → Runtime
runtime g = record {
  graph = g;
  lines = [];
  ragged = false;
  size = 0;
  corrupt = false;
  workspace_real = codes "/work";
  loaded_ms = 900;
  calls = 0;
}

abbrev loaded : Runtime
loaded = runtime sample

loaded-IsRestored : IsRestored loaded
unfolding replay_events apply_lines reset_graph reset_node
loaded-IsRestored = record { whole = refl; logged = refl }

disks-IsHealthy : IsHealthy disks
disks-IsHealthy = record { free = λ k. refl; appends = λ k. refl; snapshots = λ k. refl }

draft_valid : graph_state_eq sample.state GraphState.state_invalid ≡ false
unfolding graph_state_eq
draft_valid = refl

abbrev entering : NodeChange
entering = record {
  node_state = NodeState.pending;
  attempts = 0;
  attempt_id = [];
  operation_task_id = 0;
  synthetic_due_ms = 0;
}

pending_valid : node_state_eq NodeState.pending NodeState.state_invalid ≡ false
unfolding node_state_eq
pending_valid = refl

pending_type :
    (str_eq (codes "node.pending") (codes "graph.created") ≡ false)
    × (str_eq (codes "node.pending") (codes "graph.failed") ≡ false)
unfolding str_eq
pending_type = (refl, refl)

pending_reads :
    event_reads (
      node_event sample writer
        (codes "node.pending")
        entering
        (codes "Node entered the scheduler")
        1000)
    ≡ true
unfolding event_reads node_event node_reads graph_state_name node_state_name
pending_reads = refl

store_node_event-IsAtomic_example : IsAtomic sample (node_after sample 1 writer entering 1000) (
    store_node_event disks loaded 1
      (codes "node.pending")
      entering
      (codes "Node entered the scheduler"))
store_node_event-IsAtomic_example =
    store_node_event-IsAtomic disks loaded 1 writer (codes "node.pending") entering
      (codes "Node entered the scheduler") sample-IsWellFormed.unique refl refl draft_valid
      pending_valid pending_type.0 pending_type.1 pending_reads (omega arith) loaded-IsRestored

-- A run in which the writer is at work.
abbrev pub at_work : Graph
at_work = record sample {
  state = GraphState.running;
  nodes =
      record checker { state = NodeState.pending }
      ∷ record writer { state = NodeState.running; native_pid = 77 }
      ∷ [];
}

at_work_proper : AllNodes IsProperNode at_work
unfolding node_state_eq
at_work_proper zero n e =
    let same : record checker { state = NodeState.pending } ≡ n = cc in subst IsProperNode same refl
at_work_proper (suc zero) n e =
    let same : record writer { state = NodeState.running; native_pid = 77 } ≡ n = cc in
    subst IsProperNode same refl
at_work_proper (suc (suc j)) n e = cc

at_work_live : graph_terminal GraphState.running ≡ false
unfolding graph_terminal
at_work_live = refl

running_valid : graph_state_eq GraphState.running GraphState.state_invalid ≡ false
unfolding graph_state_eq
running_valid = refl

at_work_early : not_started GraphState.running ≡ true → AllNodes IsEarlyNode at_work
unfolding graph_state_eq
at_work_early h j n e = cc

scheduler_cancel-IsCancelled_example :
    IsCancelled (runtime at_work) (scheduler_cancel disks (runtime at_work))
scheduler_cancel-IsCancelled_example =
    scheduler_cancel-IsCancelled disks (runtime at_work) disks-IsHealthy at_work_live running_valid
      at_work_proper at_work_early

finalize_graph-IsJudged_example :
    ((finalize_graph disks (runtime at_work)).0 ≡ true)
    × IsJudged at_work.nodes (finalize_graph disks (runtime at_work)).1.graph.state
    × ((finalize_graph disks (runtime at_work)).1.graph.nodes ≡ at_work.nodes)
finalize_graph-IsJudged_example =
    finalize_graph-IsJudged disks (runtime at_work) disks-IsHealthy refl

abbrev pub waiting : Graph
waiting = record sample {
  state = GraphState.running;
  nodes =
      record checker { state = NodeState.ready; ready_ms = 2000 }
      ∷ record writer { state = NodeState.ready; ready_ms = 1000 }
      ∷ [];
}

next_ready-IsChoice_example :
    IsChoice
      (may_dispatch (λ n. true) (waiting ∷ []) waiting)
      waiting.nodes
      2
      (next_ready (λ n. true) (waiting ∷ []) waiting)
next_ready-IsChoice_example = next_ready-IsChoice (λ n. true) (waiting ∷ []) waiting

abbrev pub failed_graph : Graph
failed_graph = record at_work { state = GraphState.failed }

abbrev slots : List (Option Runtime)
slots = some (runtime at_work) ∷ some (runtime failed_graph) ∷ []

registry_allocate-IsAllocated_example : IsAllocated slots (registry_allocate slots)
registry_allocate-IsAllocated_example = registry_allocate-IsAllocated slots
