-- ===== src/Store/Replay.antt =====
-- Replay of the event log: `dtg_event_apply_line` behind the decoding of a line, and
-- `dtg_replay_events`. A refused line makes the graph unavailable, so failure is `none`.
pub mod GraphEvents
pub mod NodeEvents
pub mod Restores
use dstudio.Base.{
  cstr_copy, ℕ, zero, suc, ◌-◌, ◌*◌, ◌^◌, Bool, true, false, not, ◌&&◌, ◌||◌, List, [], ◌∷◌, map,
  Option, some, none, Str, codes, str_eq, is_empty, if◌then◌else◌, ◌==◌, leb, length, get_elem?,
}
use dstudio.Graph.Types.{GraphState, NodeState, Node, Graph}
use dstudio.Graph.Names.{graph_state_parse, node_state_parse}
use dstudio.Graph.Transition.{
  node_state_eq, graph_state_eq, node_transition_allowed, graph_transition_allowed,
  transition_node_raw,
}
use dstudio.Graph.Paths.{id_max}
use dstudio.Store.{move_graph, note_node, update_node}
use dstudio.Store.Types.{NodeEvent, Event, Line, written, garbled}

abbrev pub within : ℕ → ℕ → ℕ → Bool
within low high n = leb low n && leb n high

-- The bounds with which the fields of a line are read; a line of fields within them is shorter than
-- DTG_EVENT_LINE_MAX.
unfoldable pub node_reads : Option NodeEvent → Bool
node_reads none = true
node_reads (some n) =
    leb (length n.node_id) id_max
    && leb (length n.node_state) 39
    && leb n.attempts (2 ^ 31 - 1)
    && leb (length n.attempt_id) id_max
    && leb n.operation_task_id (2 ^ 63 - 1)
    && leb n.synthetic_due_ms (2 ^ 63 - 1)

unfoldable pub event_reads : Event → Bool
event_reads e =
    within 1 (2 ^ 63 - 1) e.seq
    && within 1 (2 ^ 63 - 1) e.ts
    && leb (length e.type) 63
    && within 1 (2 ^ 32 - 1) e.revision
    && leb (length e.graph_id) id_max
    && leb (length e.graph_state) 39
    && node_reads e.node
    && leb (length e.message) 511

-- `dtg_find_node`: the index of the first node with the id.
unfoldable pub node_index : ℕ → List Node → Str → Option ℕ
node_index i [] id = none
node_index i (n ∷ ns) id = if str_eq n.id id then some i else node_index (suc i) ns id

-- `if (node_id[0])`
unfoldable pub event_node : Option NodeEvent → Option NodeEvent
event_node none = none
event_node (some n) = if is_empty n.node_id then none else some n

unfoldable pub event_graph_allowed : GraphState → GraphState → Bool
event_graph_allowed from gs =
    not (graph_state_eq gs GraphState.state_invalid)
    && (graph_state_eq gs from || graph_transition_allowed from gs)

unfoldable pub event_node_allowed : NodeState → NodeState → Bool
event_node_allowed from ns =
    not (node_state_eq ns NodeState.state_invalid)
    && (node_state_eq ns from || node_transition_allowed from ns)

-- The node that an event names, if its step is allowed.
unfoldable pub event_node_at : Graph → NodeEvent → Option (ℕ × Node)
event_node_at g ne = elim (node_index 0 g.nodes ne.node_id) [
  | none ↦ none
  | some i ↦ elim (get_elem? g.nodes i) [
    | none ↦ none
    | some n ↦
        if event_node_allowed n.state (node_state_parse ne.node_state) then some (i, n) else none
  ]
]

-- What an event writes in the node.
unfoldable pub apply_node : Event → NodeEvent → ℕ × Node → Graph → Option Graph
apply_node e ne (i, n) g =
    let ns = node_state_parse ne.node_state in
    let noted = note_node ne.attempts ne.attempt_id ne.operation_task_id ne.synthetic_due_ms in
    elim (if node_state_eq ns n.state then some g else transition_node_raw g i ns e.ts) [
      | none ↦ none
      | some moved ↦ some (update_node noted i moved)
    ]

-- What an event writes in the graph, its node aside.
unfoldable pub apply_graph : Event → Graph → Option Graph
apply_graph e g = elim (move_graph g (graph_state_parse e.graph_state) e.ts) [
  | none ↦ none
  | some moved ↦ some (record moved {
    created_ms = if str_eq e.type (codes "graph.created") then e.ts else moved.created_ms;
    error = if str_eq e.type (codes "graph.failed") then cstr_copy 511 e.message else moved.error;
    approved = e.approved;
    last_event_seq = e.seq;
  })
]

unfoldable pub event_continues : Event → Graph → Bool
event_continues e g =
    event_reads e
    && e.seq == suc g.last_event_seq
    && str_eq e.graph_id g.id
    && e.revision == g.revision
    && event_graph_allowed g.state (graph_state_parse e.graph_state)

unfoldable pub event_apply : Event → Graph → Option Graph
event_apply e g = if not (event_continues e g) then none else elim (event_node e.node) [
  | none ↦ apply_graph e g
  | some ne ↦ elim (event_node_at g ne) [
    | none ↦ none
    | some found ↦ elim (apply_graph e g) [ none ↦ none | some g' ↦ apply_node e ne found g' ]
  ]
]

unfoldable pub reset_node : Node → Node
reset_node n = record n {
  state = NodeState.draft;
  attempts_started = 0;
  active_attempt_id = [];
  operation_task_id = 0;
  ready_ms = 0;
  started_ms = 0;
  finished_ms = 0;
  synthetic_due_ms = 0;
}

unfoldable pub reset_graph : Graph → Graph
reset_graph g = record g {
  state = GraphState.draft;
  approved = false;
  last_event_seq = 0;
  created_ms = 0;
  updated_ms = 0;
  started_ms = 0;
  completed_ms = 0;
  error = [];
  nodes = map reset_node g.nodes;
}

-- The loop over the complete lines; a fragment at the end is ignored.
unfoldable pub apply_lines : List Line → Graph → Option Graph
apply_lines [] g = some g
apply_lines (garbled ∷ lines) g = none
apply_lines (written e ∷ lines) g = elim (event_apply e g) [
  | none ↦ none
  | some g' ↦ apply_lines lines g'
]

-- `dtg_read_file_bounded` refuses a file over the limit.
abbrev pub log_limit : ℕ
log_limit = 32 * 1024 * 1024

unfoldable pub replay_events : ℕ → List Line → Graph → Option Graph
replay_events size lines g = if leb size log_limit then apply_lines lines (reset_graph g) else none
