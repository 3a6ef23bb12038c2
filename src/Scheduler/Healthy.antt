-- ===== src/Scheduler/Healthy.antt =====
-- The scheduler on disks on which every store call succeeds.
use dstudio.Base.{
  ℕ, ◌≡◌, inl, inr, refl, sym, Bool, true, false, some, Str, arith, Bool-cases, get_elem?, set,
}
use dstudio.Graph.Types.{GraphState, NodeState, Node, Graph}
use dstudio.Graph.Transition.{
  graph_state_eq, graph_transition_allowed, node_enter, node_state_eq, node_transition_allowed,
  graph_enter, transition_graph_raw, transition_node_raw,
}
use dstudio.Graph.Transition.Walks.{graph_state_eq_sound}
use dstudio.Store.Types.{appended, Disk, NodeChange, Runtime}
use dstudio.Store.{
  append_event, commit, graph_after, is_some, move_graph, move_node, note_node, store_graph_event,
  store_node_event, write_line,
}
use dstudio.Store.Replay.GraphEvents.{graph_may}
use dstudio.Store.Replay.NodeEvents.{node_after-step, node_may}
use dstudio.Scheduler.{only_state, scheduler_set_node}

-- No other process holds the lock, and every append and every snapshot is written.
pub record IsHealthy (disks : ℕ → Disk) : Type 0 where
  pub free : (k : ℕ) → (disks k).lock_free ≡ true
  pub appends : (k : ℕ) → (disks k).append ≡ appended
  pub snapshots : (k : ℕ) → (disks k).snapshot ≡ true

-- A call that succeeds: node `i` enters `target`, and the graph's own state stays.
pub record IsMade (rt : Runtime) (i : ℕ) (target : NodeState) (result : Bool × Runtime)
    : Type 0 where
  pub done : result.0 ≡ true
  pub node : Node
  pub entered : node.state ≡ target
  pub nodes : result.1.graph.nodes ≡ set rt.graph.nodes i node
  pub graph_state : result.1.graph.state ≡ rt.graph.state

move_node-some :
    (g : Graph) (i : ℕ) (n : Node) (target : NodeState) (ts : ℕ)
    → get_elem? g.nodes i ≡ some n
    → node_may n.state target ≡ true
    → is_some (move_node g i n target ts) ≡ true
unfolding move_node transition_node_raw
move_node-some g i n target ts e may = elim (Bool-cases (node_state_eq target n.state)) [
  | inl stay ↦ rw (move_node, stay) refl
  | inr step ↦
      let allowed : node_transition_allowed n.state target ≡ true = ground arith in
      rw (move_node, transition_node_raw, step, e, allowed) refl
]

pub store_node_event-IsMade :
    (disks : ℕ → Disk) (rt : Runtime) (i : ℕ) (n : Node) (type : Str) (change : NodeChange)
    (message : Str)
    → IsHealthy disks
    → get_elem? rt.graph.nodes i ≡ some n
    → node_state_eq change.node_state n.state ≡ false
    → node_transition_allowed n.state change.node_state ≡ true
    → IsMade rt i change.node_state (store_node_event disks rt i type change message)
unfolding store_node_event commit append_event write_line note_node node_enter
store_node_event-IsMade disks rt i n type change message healthy e step allowed =
    let may : node_may n.state change.node_state ≡ true = ground arith in
    let moved = move_node-some rt.graph i n change.node_state (disks rt.calls).clock e may in
    let after = node_after-step rt.graph i n change (disks rt.calls).clock e may step in
    let free = healthy.free rt.calls in
    let appends = healthy.appends rt.calls in
    let snapshots = healthy.snapshots rt.calls in
    let m =
      note_node change.attempts change.attempt_id change.operation_task_id change.synthetic_due_ms
        (node_enter change.node_state (disks rt.calls).clock n) in
    record {
      done = rw (store_node_event, e, step, allowed, free, appends, moved, snapshots) refl;
      node = m;
      entered = refl;
      nodes = rw (store_node_event, e, step, allowed, free, appends, after) refl;
      graph_state = rw (store_node_event, e, step, allowed, free, appends, after) refl;
    }

pub scheduler_set_node-IsMade :
    (disks : ℕ → Disk) (rt : Runtime) (i : ℕ) (n : Node) (type : Str) (target : NodeState)
    (message : Str)
    → IsHealthy disks
    → get_elem? rt.graph.nodes i ≡ some n
    → node_state_eq target n.state ≡ false
    → node_transition_allowed n.state target ≡ true
    → IsMade rt i target (scheduler_set_node disks rt i type target message)
unfolding scheduler_set_node
scheduler_set_node-IsMade disks rt i n type target message healthy e step allowed =
    rw (scheduler_set_node, e)
      (store_node_event-IsMade disks rt i n type (only_state n target) message healthy e step
        allowed)

-- A graph event that succeeds.
pub record IsEntered (rt : Runtime) (target : GraphState) (result : Bool × Runtime) : Type 0 where
  pub done : result.0 ≡ true
  pub entered : result.1.graph.state ≡ target
  pub nodes : result.1.graph.nodes ≡ rt.graph.nodes

enter_graph :
    (disks : ℕ → Disk) (rt : Runtime) (type : Str) (target : GraphState) (approved : Bool)
    (message : Str)
    → IsHealthy disks
    → graph_state_eq target rt.graph.state ≡ false
    → graph_transition_allowed rt.graph.state target ≡ true
    → IsEntered rt target (store_graph_event disks rt type target approved message)
unfolding store_graph_event commit append_event write_line graph_after move_graph
    transition_graph_raw graph_enter
enter_graph disks rt type target approved message healthy step allowed =
    let free = healthy.free rt.calls in
    let appends = healthy.appends rt.calls in
    let snapshots = healthy.snapshots rt.calls in
    record {
      done = rw (store_graph_event, step, allowed, free, appends, snapshots) refl;
      entered = rw (store_graph_event, step, allowed, free, appends) refl;
      nodes = rw (store_graph_event, step, allowed, free, appends) refl;
    }

stay_graph :
    (disks : ℕ → Disk) (rt : Runtime) (type : Str) (target : GraphState) (approved : Bool)
    (message : Str)
    → IsHealthy disks
    → graph_state_eq target rt.graph.state ≡ true
    → IsEntered rt target (store_graph_event disks rt type target approved message)
unfolding store_graph_event commit append_event write_line graph_after move_graph
stay_graph disks rt type target approved message healthy stay =
    let free = healthy.free rt.calls in
    let appends = healthy.appends rt.calls in
    let snapshots = healthy.snapshots rt.calls in
    record {
      done = rw (store_graph_event, stay, free, appends, snapshots) refl;
      entered =
          rw (store_graph_event, stay, free, appends)
            (sym (graph_state_eq_sound target rt.graph.state stay));
      nodes = rw (store_graph_event, stay, free, appends) refl;
    }

pub store_graph_event-IsEntered :
    (disks : ℕ → Disk) (rt : Runtime) (type : Str) (target : GraphState) (approved : Bool)
    (message : Str)
    → IsHealthy disks
    → graph_may rt.graph.state target ≡ true
    → IsEntered rt target (store_graph_event disks rt type target approved message)
store_graph_event-IsEntered disks rt type target approved message healthy may =
    elim (Bool-cases (graph_state_eq target rt.graph.state)) [
      | inl stay ↦ stay_graph disks rt type target approved message healthy stay
      | inr step ↦ enter_graph disks rt type target approved message healthy step (ground arith)
    ]
