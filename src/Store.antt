-- ===== src/Store.antt =====
-- The store calls of src/dstudio_task_store.c: an event is appended to the log, and then the graph
-- in memory takes it. `disks` says what each call meets, by the number of calls before it. A call
-- returns the C function's result and the runtime behind it, which a call that fails may change too.
pub mod Types
pub mod Replay
pub mod Outcomes
pub mod Registry
use dstudio.Base.{
  cstr_copy, ℕ, zero, suc, ◌+◌, Bool, true, false, not, ◌&&◌, ◌||◌, List, [], ◌∷◌, ◌++◌, Option,
  some, none, Str, codes, if◌then◌else◌, set, get_elem?,
}
use dstudio.Graph.Types.{GraphState, NodeState, Node, Graph}
use dstudio.Graph.Names.{graph_state_name, node_state_name}
use dstudio.Graph.Transition.{
  node_state_eq, graph_state_eq, node_transition_allowed, graph_transition_allowed,
  transition_node_raw, transition_graph_raw,
}
use dstudio.Graph.Paths.{id_max}
use dstudio.Store.Types.{
  NodeChange, NodeEvent, Event, Line, written, garbled, Runtime, Append, unopened, torn, injected,
  appended, Disk,
}

unfoldable pub write_line : Bool → ℕ → Event → Runtime → Runtime
write_line false bytes e rt = record rt { ragged = true; size = rt.size + bytes }
write_line true bytes e rt = record rt {
  lines = rt.lines ++ (if rt.ragged then garbled else written e) ∷ [];
  ragged = false;
  size = rt.size + bytes;
}

unfoldable pub append_event : Append → ℕ → Event → Runtime → Bool × Runtime
append_event unopened bytes e rt = (false, rt)
append_event (torn whole) bytes e rt = (false, write_line whole bytes e rt)
append_event injected bytes e rt = (false, write_line true bytes e rt)
append_event appended bytes e rt = (true, write_line true bytes e rt)

-- The next disk, and the call that meets it counted.
abbrev pub count_call : Runtime → Runtime
count_call rt = record rt { calls = suc rt.calls }

abbrev pub or_else {ℓ} : {A : Type ℓ} → A → Option A → A
or_else a none = a
or_else a (some b) = b

abbrev pub is_some {ℓ} : {A : Type ℓ} → Option A → Bool
is_some none = false
is_some (some a) = true

-- `if (target != state) dtg_transition_graph_raw(...) else updated_ms = ts`
unfoldable pub move_graph : Graph → GraphState → ℕ → Option Graph
move_graph g target ts =
    if graph_state_eq target g.state
    then some (record g { updated_ms = ts })
    else transition_graph_raw g target ts

unfoldable pub graph_event : Graph → Str → GraphState → Bool → Str → ℕ → Event
graph_event g type target approved message ts = record {
  seq = suc g.last_event_seq;
  ts = ts;
  type = type;
  graph_id = g.id;
  revision = g.revision;
  graph_state = graph_state_name target;
  approved = approved;
  node = none;
  message = message;
}

-- The graph in memory behind the append.
unfoldable pub graph_after : Graph → GraphState → Bool → ℕ → Graph
graph_after g target approved ts = record (or_else g (move_graph g target ts)) {
  approved = approved;
  last_event_seq = suc g.last_event_seq;
}

-- Behind the append: the graph in memory becomes `g`, and `done` says whether the rest succeeds.
unfoldable pub commit : Bool → Graph → Bool × Runtime → Bool × Runtime
commit done g (false, rt) = (false, rt)
commit done g (true, rt) = (done, record rt { graph = g })

unfoldable pub store_graph_event :
    (ℕ → Disk) → Runtime → Str → GraphState → Bool → Str → Bool × Runtime
store_graph_event disks rt type target approved message =
    let disk = disks rt.calls in
    let rt' = count_call rt in
    if not (graph_state_eq target rt.graph.state)
      && not (graph_transition_allowed rt.graph.state target)
    then (false, rt)
    else if not disk.lock_free
    then (false, rt')
    else commit (is_some (move_graph rt.graph target disk.clock) && disk.snapshot)
        (graph_after rt.graph target approved disk.clock)
        (append_event disk.append disk.bytes
          (graph_event rt.graph type target approved message disk.clock) rt')

unfoldable pub node_event : Graph → Node → Str → NodeChange → Str → ℕ → Event
node_event g n type change message ts = record {
  seq = suc g.last_event_seq;
  ts = ts;
  type = type;
  graph_id = g.id;
  revision = g.revision;
  graph_state = graph_state_name g.state;
  approved = g.approved;
  node = some (record {
    node_id = n.id;
    node_state = node_state_name change.node_state;
    attempts = change.attempts;
    attempt_id = change.attempt_id;
    operation_task_id = change.operation_task_id;
    synthetic_due_ms = change.synthetic_due_ms;
  });
  message = message;
}

-- The fields of a node that an event carries as they are.
unfoldable pub note_node : ℕ → Str → ℕ → ℕ → Node → Node
note_node attempts attempt_id operation due n = record n {
  attempts_started = attempts;
  active_attempt_id = cstr_copy id_max attempt_id;
  operation_task_id = operation;
  synthetic_due_ms = due;
}

abbrev pub update_node : (Node → Node) → ℕ → Graph → Graph
update_node f i g = elim (get_elem? g.nodes i) [
  | none ↦ g
  | some n ↦ record g { nodes = set g.nodes i (f n) }
]

unfoldable pub move_node : Graph → ℕ → Node → NodeState → ℕ → Option Graph
move_node g i n target ts =
    if node_state_eq target n.state
    then some (record g { updated_ms = ts })
    else transition_node_raw g i target ts

unfoldable pub node_after : Graph → ℕ → Node → NodeChange → ℕ → Graph
node_after g i n change ts =
    let noted =
      note_node change.attempts change.attempt_id change.operation_task_id
        change.synthetic_due_ms in
    record (update_node noted i (or_else g (move_node g i n change.node_state ts))) {
      last_event_seq = suc g.last_event_seq;
    }

-- For the node at index `i`; a missing node is the NULL that the function refuses.
unfoldable pub store_node_event : (ℕ → Disk) → Runtime → ℕ → Str → NodeChange → Str → Bool × Runtime
store_node_event disks rt i type change message =
    let disk = disks rt.calls in
    let rt' = count_call rt in
    elim (get_elem? rt.graph.nodes i) [
      | none ↦ (false, rt)
      | some n ↦
          if not (node_state_eq change.node_state n.state)
            && not (node_transition_allowed n.state change.node_state)
          then (false, rt)
          else if not disk.lock_free
          then (false, rt')
          else commit
              (is_some (move_node rt.graph i n change.node_state disk.clock) && disk.snapshot)
              (node_after rt.graph i n change disk.clock)
              (append_event disk.append disk.bytes
                (node_event rt.graph n type change message disk.clock) rt')
    ]
