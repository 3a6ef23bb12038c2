-- ===== src/Examples/Failures.antt =====
-- The store call that reports a failed graph at a concrete log.
use dstudio.Base.{arith, cstr_copy, ◌≡◌, refl, true, false, List, [], ◌∷◌, codes, str_eq}
use dstudio.Graph.Types.{GraphState, Graph}
use dstudio.Graph.Names.{first_named, graph_state_name, graph_state_parse}
use dstudio.Graph.Transition.{
  graph_enter, graph_state_eq, graph_terminal, graph_transition_allowed, transition_graph_raw,
}
use dstudio.Store.Types.{Line, written, Runtime}
use dstudio.Store.{graph_after, graph_event, move_graph, store_graph_event}
use dstudio.Store.Replay.{
  apply_graph, apply_lines, event_apply, event_continues, event_graph_allowed, event_node,
  event_reads, node_reads, replay_events, reset_graph, reset_node,
}
use dstudio.Store.Replay.GraphEvents.{reported}
use dstudio.Store.Replay.Restores.{IsAtomic, IsLogged}
use dstudio.Store.Replay.Restores.OfGraphs.{store_graph_event-IsAtomic}
use dstudio.Scheduler.Finalize.{failure_message}
use dstudio.Examples.Samples.{sample}
use dstudio.Examples.Schedules.{disks}

-- The graph as its log leads it to work.
abbrev validated : Graph
validated = graph_after sample GraphState.validated false 1000

abbrev approved : Graph
approved = graph_after validated GraphState.ready true 1001

abbrev started : Graph
started = graph_after approved GraphState.running true 1002

abbrev started_lines : List Line
started_lines =
    written (graph_event sample (codes "graph.validated") GraphState.validated false [] 1000)
    ∷ written (graph_event validated (codes "graph.approved") GraphState.ready true [] 1001)
    ∷ written (graph_event approved (codes "graph.started") GraphState.running true [] 1002)
    ∷ []

-- The scheduler has set the error, and the event is yet to come.
abbrev failing : Runtime
failing = record {
  graph = record started { error = failure_message };
  lines = started_lines;
  ragged = false;
  size = 600;
  corrupt = false;
  workspace_real = codes "/work";
  loaded_ms = 900;
  calls = 3;
}

failing-IsLogged : IsLogged failing started
unfolding replay_events apply_lines reset_graph reset_node event_apply event_continues event_reads
    node_reads event_graph_allowed event_node apply_graph move_graph transition_graph_raw
    graph_enter graph_transition_allowed graph_state_parse graph_state_name graph_state_eq
    graph_terminal graph_event graph_after str_eq first_named
failing-IsLogged = record { whole = refl; logged = refl }

failed_valid : graph_state_eq GraphState.failed GraphState.state_invalid ≡ false
unfolding graph_state_eq
failed_valid = refl

failed_type : str_eq (codes "graph.failed") (codes "graph.created") ≡ false
unfolding str_eq
failed_type = refl

failed_reads :
    event_reads
      (graph_event started (codes "graph.failed") GraphState.failed true failure_message 1003)
    ≡ true
unfolding event_reads graph_event node_reads graph_state_name graph_after move_graph
    transition_graph_raw graph_enter graph_transition_allowed graph_state_eq
failed_reads = refl

failing_reported : failing.graph ≡ reported (codes "graph.failed") failure_message started
unfolding str_eq cstr_copy
failing_reported = refl

store_graph_event-IsAtomic_example :
    IsAtomic started (graph_after failing.graph GraphState.failed true 1003) (
      store_graph_event disks failing (codes "graph.failed") GraphState.failed true failure_message)
store_graph_event-IsAtomic_example =
    store_graph_event-IsAtomic disks failing started (codes "graph.failed") GraphState.failed true
      failure_message failed_valid failed_type failed_reads (omega arith) failing-IsLogged
      failing_reported
