-- ===== src/Store/Replay/Restores/OfNodes.antt =====
-- The store call about a node, on every way its append may end.
use dstudio.Base.{
  ℕ, ◌+◌, ◌≤◌, codes, str_eq, ◌≡◌, inl, inr, refl, true, false, not, ◌&&◌, Str, some, Bool-cases,
  arith, is_empty, get_elem?, map-set,
}
use dstudio.Graph.Types.{GraphState, NodeState, Node, Graph}
use dstudio.Graph.Transition.{graph_state_eq, node_enter, node_state_eq, node_transition_allowed}
use dstudio.Graph.Order.Loop.{HasUniqueIds}
use dstudio.Store.Types.{Disk, NodeChange, Runtime}
use dstudio.Store.{count_call, node_after, node_event, note_node, store_node_event}
use dstudio.Store.Replay.{event_apply, event_reads, log_limit, reset_graph, reset_node}
use dstudio.Store.Replay.GraphEvents.{reports}
use dstudio.Store.Replay.NodeEvents.{
  event_apply-node_event, node_after-stay, node_after-step, node_may,
}
use dstudio.Store.Replay.Restores.{
  IsAtomic, IsRestored, commit-IsAtomic, failed-IsAtomic, refused-IsAtomic,
}

reset-node_after :
    (g : Graph) (i : ℕ) (n : Node) (change : NodeChange) (ts : ℕ)
    → get_elem? g.nodes i ≡ some n
    → node_may n.state change.node_state ≡ true
    → reset_graph (node_after g i n change ts) ≡ reset_graph g
unfolding reset_graph reset_node note_node node_enter
reset-node_after g i n change ts e may =
    let noted =
      note_node change.attempts change.attempt_id change.operation_task_id
        change.synthetic_due_ms in
    elim (Bool-cases (node_state_eq change.node_state n.state)) [
      | inl stay ↦
          let same = map-set reset_node g.nodes i n (noted n) e refl in
          rw (node_after-stay g i n change ts e may stay, same) refl
      | inr step ↦
          let same =
            map-set reset_node g.nodes i n (noted (node_enter change.node_state ts n)) e refl in
          rw (node_after-step g i n change ts e may step, same) refl
    ]

module _ (disks : ℕ → Disk) (rt : Runtime) (i : ℕ) (n : Node) (type : Str) (change : NodeChange)
    (message : Str) (e : get_elem? rt.graph.nodes i ≡ some n) (kept : IsRestored rt) where
  abbrev after : Graph
  after = node_after rt.graph i n change (disks rt.calls).clock

  allowed_call :
      node_may n.state change.node_state ≡ true
      → event_apply (node_event rt.graph n type change message (disks rt.calls).clock) rt.graph
        ≡ some after
      → rt.size + (disks rt.calls).bytes ≤ log_limit
      → IsAtomic rt.graph after (store_node_event disks rt i type change message)
  unfolding store_node_event
  allowed_call may applied fits =
      let origin = reset-node_after rt.graph i n change (disks rt.calls).clock e may in
      let open_door : (not (node_state_eq change.node_state n.state)
            && not (node_transition_allowed n.state change.node_state))
          ≡ false =
        ground arith in
      elim (Bool-cases (disks rt.calls).lock_free) [
        | inl free ↦
            rw (store_node_event, e, open_door, free)
              (commit-IsAtomic (count_call rt) rt.graph after _ (disks rt.calls).bytes
                (record { whole = kept.whole; logged = kept.logged }) applied fits _
                (disks rt.calls).append origin)
        | inr locked ↦
            rw (store_node_event, e, open_door, locked) (failed-IsAtomic rt rt.graph after kept)
      ]

  refused_call :
      node_may n.state change.node_state ≡ false
      → IsAtomic rt.graph after (store_node_event disks rt i type change message)
  unfolding store_node_event
  refused_call refused =
      let shut : (not (node_state_eq change.node_state n.state)
            && not (node_transition_allowed n.state change.node_state))
          ≡ true =
        ground arith in
      rw (store_node_event, e, shut) (refused-IsAtomic rt rt.graph after kept)

-- A store call about a node whose id is not empty, in a graph with distinct ids and a valid state,
-- to a valid state, of a type other than "graph.created" and "graph.failed", however its append ends.
-- Let the log end with a complete line and replay to the graph in memory; let the fields of the event
-- be within the bounds of replay, and the file within its limit behind the append. Then replay of
-- the log behind the call gives the graph before the call or the one that the call is to make; and
-- where the call succeeds, the latter is in memory, and the log again ends with a complete line and
-- replays to it.
pub store_node_event-IsAtomic :
    (disks : ℕ → Disk) (rt : Runtime) (i : ℕ) (n : Node) (type : Str) (change : NodeChange)
    (message : Str)
    → HasUniqueIds rt.graph.nodes
    → get_elem? rt.graph.nodes i ≡ some n
    → is_empty n.id ≡ false
    → graph_state_eq rt.graph.state GraphState.state_invalid ≡ false
    → node_state_eq change.node_state NodeState.state_invalid ≡ false
    → str_eq type (codes "graph.created") ≡ false
    → str_eq type (codes "graph.failed") ≡ false
    → event_reads (node_event rt.graph n type change message (disks rt.calls).clock) ≡ true
    → rt.size + (disks rt.calls).bytes ≤ log_limit
    → IsRestored rt
    → IsAtomic rt.graph
        (node_after rt.graph i n change (disks rt.calls).clock)
        (store_node_event disks rt i type change message)
store_node_event-IsAtomic disks rt i n type change message unique e named proper valid old
      no_failure reads fits kept =
    let quiet : reports type message rt.graph ≡ true = ground arith in
    elim (Bool-cases (node_may n.state change.node_state)) [
      | inl may ↦
          allowed_call disks rt i n type change message e kept may
            (event_apply-node_event rt.graph i n type change message (disks rt.calls).clock unique e
              named proper valid may quiet reads)
            fits
      | inr refused ↦ refused_call disks rt i n type change message e kept refused
    ]
