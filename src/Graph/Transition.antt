-- ===== src/Graph/Transition.antt =====
-- The state transition authority of src/dstudio_task_graph.c ("Central state transition
-- authority"): which steps a node and a graph may take, and what a step writes.
pub mod Walks
pub mod Times
use dstudio.Base.{
  ℕ, ◌≡◌, Bool, true, false, not, ◌&&◌, ◌||◌, ◌==◌, if◌then◌else◌, some, none, Option, set,
  get_elem?, ◌<◌, ◌↔◌, ◌≢◌,
}
use dstudio.Graph.Types.{GraphState, NodeState, Node, Graph}

-- An enum is an int: two states are compared by their values.
unfoldable pub node_state_value : NodeState → ℕ
node_state_value NodeState.draft = 0
node_state_value NodeState.pending = 1
node_state_value NodeState.ready = 2
node_state_value NodeState.leased = 3
node_state_value NodeState.running = 4
node_state_value NodeState.waiting_approval = 5
node_state_value NodeState.paused = 6
node_state_value NodeState.cancelling = 7
node_state_value NodeState.interrupted = 8
node_state_value NodeState.succeeded = 9
node_state_value NodeState.failed = 10
node_state_value NodeState.cancelled = 11
node_state_value NodeState.blocked = 12
node_state_value NodeState.skipped = 13
node_state_value NodeState.state_invalid = 14

unfoldable pub graph_state_value : GraphState → ℕ
graph_state_value GraphState.draft = 0
graph_state_value GraphState.validated = 1
graph_state_value GraphState.ready = 2
graph_state_value GraphState.running = 3
graph_state_value GraphState.pausing = 4
graph_state_value GraphState.paused = 5
graph_state_value GraphState.waiting_approval = 6
graph_state_value GraphState.needs_input = 7
graph_state_value GraphState.succeeded = 8
graph_state_value GraphState.failed = 9
graph_state_value GraphState.cancelling = 10
graph_state_value GraphState.cancelled = 11
graph_state_value GraphState.corrupt = 12
graph_state_value GraphState.state_invalid = 13

unfoldable pub node_state_eq : NodeState → NodeState → Bool
unfolding node_state_value
node_state_eq a b = node_state_value a == node_state_value b

unfoldable pub graph_state_eq : GraphState → GraphState → Bool
unfolding graph_state_value
graph_state_eq a b = graph_state_value a == graph_state_value b

unfoldable pub node_terminal : NodeState → Bool
node_terminal NodeState.succeeded = true
node_terminal NodeState.failed = true
node_terminal NodeState.cancelled = true
node_terminal NodeState.skipped = true
node_terminal _ = false

unfoldable pub graph_terminal : GraphState → Bool
graph_terminal GraphState.succeeded = true
graph_terminal GraphState.failed = true
graph_terminal GraphState.cancelled = true
graph_terminal GraphState.corrupt = true
graph_terminal _ = false

-- The `switch` of `dtg_node_transition_allowed`; the last clause is `default`.
node_step : NodeState → NodeState → Bool
unfolding node_state_eq
node_step NodeState.draft to =
    node_state_eq to NodeState.pending || node_state_eq to NodeState.cancelled
node_step NodeState.pending to =
    node_state_eq to NodeState.ready
    || node_state_eq to NodeState.blocked
    || node_state_eq to NodeState.skipped
    || node_state_eq to NodeState.cancelled
node_step NodeState.ready to =
    node_state_eq to NodeState.leased
    || node_state_eq to NodeState.paused
    || node_state_eq to NodeState.cancelled
    || node_state_eq to NodeState.skipped
node_step NodeState.leased to =
    node_state_eq to NodeState.running
    || node_state_eq to NodeState.ready
    || node_state_eq to NodeState.cancelling
node_step NodeState.running to =
    node_state_eq to NodeState.succeeded
    || node_state_eq to NodeState.failed
    || node_state_eq to NodeState.waiting_approval
    || node_state_eq to NodeState.cancelling
    || node_state_eq to NodeState.interrupted
node_step NodeState.waiting_approval to =
    node_state_eq to NodeState.ready
    || node_state_eq to NodeState.succeeded
    || node_state_eq to NodeState.cancelled
    || node_state_eq to NodeState.failed
node_step NodeState.paused to =
    node_state_eq to NodeState.ready || node_state_eq to NodeState.cancelled
node_step NodeState.cancelling to =
    node_state_eq to NodeState.cancelled || node_state_eq to NodeState.interrupted
node_step NodeState.interrupted to =
    node_state_eq to NodeState.ready
    || node_state_eq to NodeState.waiting_approval
    || node_state_eq to NodeState.failed
    || node_state_eq to NodeState.cancelled
node_step NodeState.failed to = node_state_eq to NodeState.pending
node_step NodeState.blocked to =
    node_state_eq to NodeState.pending
    || node_state_eq to NodeState.skipped
    || node_state_eq to NodeState.cancelled
node_step _ to = false

unfoldable pub node_transition_allowed : NodeState → NodeState → Bool
unfolding node_step node_state_eq
node_transition_allowed from to = node_state_eq from to || node_step from to

-- The `switch` of `dtg_graph_transition_allowed`.
graph_step : GraphState → GraphState → Bool
unfolding graph_state_eq
graph_step GraphState.draft to =
    graph_state_eq to GraphState.validated
    || graph_state_eq to GraphState.corrupt
    || graph_state_eq to GraphState.cancelled
graph_step GraphState.validated to =
    graph_state_eq to GraphState.ready
    || graph_state_eq to GraphState.waiting_approval
    || graph_state_eq to GraphState.cancelled
graph_step GraphState.ready to =
    graph_state_eq to GraphState.running || graph_state_eq to GraphState.cancelled
graph_step GraphState.running to =
    graph_state_eq to GraphState.pausing
    || graph_state_eq to GraphState.waiting_approval
    || graph_state_eq to GraphState.needs_input
    || graph_state_eq to GraphState.succeeded
    || graph_state_eq to GraphState.failed
    || graph_state_eq to GraphState.cancelling
graph_step GraphState.pausing to =
    graph_state_eq to GraphState.paused || graph_state_eq to GraphState.cancelling
graph_step GraphState.paused to =
    graph_state_eq to GraphState.running || graph_state_eq to GraphState.cancelling
graph_step GraphState.waiting_approval to =
    graph_state_eq to GraphState.ready
    || graph_state_eq to GraphState.running
    || graph_state_eq to GraphState.cancelling
    || graph_state_eq to GraphState.failed
graph_step GraphState.needs_input to =
    graph_state_eq to GraphState.running
    || graph_state_eq to GraphState.cancelling
    || graph_state_eq to GraphState.failed
graph_step GraphState.cancelling to = graph_state_eq to GraphState.cancelled
graph_step _ to = false

unfoldable pub graph_transition_allowed : GraphState → GraphState → Bool
unfolding graph_step graph_state_eq
graph_transition_allowed from to = graph_state_eq from to || graph_step from to

-- What entering a state writes in the node, `updated_ms` of the graph aside.
unfoldable pub node_enter : NodeState → ℕ → Node → Node
unfolding node_state_eq node_terminal
node_enter to now n =
    let fresh = node_state_eq to NodeState.pending in
    let ready = if fresh then 0 else n.ready_ms in
    let started = if fresh then 0 else n.started_ms in
    let finished = if fresh then 0 else n.finished_ms in
    record n {
      state = to;
      ready_ms = if node_state_eq to NodeState.ready && ready == 0 then now else ready;
      started_ms = if node_state_eq to NodeState.running then now else started;
      finished_ms = if node_terminal to then now else finished;
    }

-- The node pointer is its index in `nodes`.
unfoldable pub transition_node_raw : Graph → ℕ → NodeState → ℕ → Option Graph
transition_node_raw g i to now = elim (get_elem? g.nodes i) [
  | none ↦ none
  | some n ↦
      if node_transition_allowed n.state to
      then some (record g { nodes = set g.nodes i (node_enter to now n); updated_ms = now })
      else none
]

unfoldable pub graph_enter : GraphState → ℕ → Graph → Graph
unfolding graph_state_eq graph_terminal
graph_enter to now g = record g {
  state = to;
  started_ms =
      if graph_state_eq to GraphState.running && g.started_ms == 0 then now else g.started_ms;
  completed_ms = if graph_terminal to then now else g.completed_ms;
  updated_ms = now;
}

unfoldable pub transition_graph_raw : Graph → GraphState → ℕ → Option Graph
transition_graph_raw g to now =
    if graph_transition_allowed g.state to then some (graph_enter to now g) else none
