-- ===== src/Store/Outcomes.antt =====
-- What a store call of src/dstudio_task_store.c leaves in memory, whatever the disks answer: the
-- graph as it was, or the graph behind the event.
use dstudio.Base.{
  ℕ, ◌≡◌, ◌⊎◌, inl, inr, refl, Bool, true, false, not, ◌&&◌, some, Str, arith, Bool-cases,
  Option-cases, get_elem?,
}
use dstudio.Graph.Types.{GraphState, Node, Graph}
use dstudio.Graph.Transition.{
  graph_state_eq, graph_transition_allowed, node_state_eq, node_transition_allowed,
}
use dstudio.Store.Types.{
  Append, unopened, torn, injected, appended, Disk, Event, NodeChange, Runtime,
}
use dstudio.Store.{
  append_event, commit, graph_after, node_after, store_graph_event, store_node_event, write_line,
}
use dstudio.Store.Replay.GraphEvents.{graph_may}
use dstudio.Store.Replay.NodeEvents.{node_may}

commit-cases :
    (done : Bool) (g : Graph) (a : Append) (bytes : ℕ) (e : Event) (rt : Runtime)
    → ((commit done g (append_event a bytes e rt)).1.graph ≡ rt.graph)
      ⊎ ((commit done g (append_event a bytes e rt)).1.graph ≡ g)
unfolding commit append_event write_line
commit-cases done g unopened bytes e rt = inl refl
commit-cases done g (torn true) bytes e rt = inl refl
commit-cases done g (torn false) bytes e rt = inl refl
commit-cases done g injected bytes e rt = inl refl
commit-cases done g appended bytes e rt = inr refl

pub store_graph_event-cases :
    (disks : ℕ → Disk) (rt : Runtime) (type : Str) (target : GraphState) (approved : Bool)
    (message : Str)
    → ((store_graph_event disks rt type target approved message).1.graph ≡ rt.graph)
      ⊎ ((graph_may rt.graph.state target ≡ true)
          × ((store_graph_event disks rt type target approved message).1.graph
              ≡ graph_after rt.graph target approved (disks rt.calls).clock))
unfolding store_graph_event
store_graph_event-cases disks rt type target approved message =
    elim (Bool-cases (
      not (graph_state_eq target rt.graph.state)
      && not (graph_transition_allowed rt.graph.state target))) [
        | inl shut ↦ inl (rw (store_graph_event, shut) refl)
        | inr open_door ↦ elim (Bool-cases (disks rt.calls).lock_free) [
          | inr locked ↦ inl (rw (store_graph_event, open_door, locked) refl)
          | inl free ↦
              let may : graph_may rt.graph.state target ≡ true = ground arith in
              elim (commit-cases _ _ (disks rt.calls).append _ _ _) [
                | inl kept ↦ inl (rw (store_graph_event, open_door, free) kept)
                | inr done ↦ inr (may, rw (store_graph_event, open_door, free) done)
              ]
        ]
      ]

store_found-cases :
    (disks : ℕ → Disk) (rt : Runtime) (i : ℕ) (n : Node) (type : Str) (change : NodeChange)
    (message : Str)
    → get_elem? rt.graph.nodes i ≡ some n
    → ((store_node_event disks rt i type change message).1.graph ≡ rt.graph)
      ⊎ ((node_may n.state change.node_state ≡ true)
          × ((store_node_event disks rt i type change message).1.graph
              ≡ node_after rt.graph i n change (disks rt.calls).clock))
unfolding store_node_event
store_found-cases disks rt i n type change message e =
    elim (Bool-cases (
      not (node_state_eq change.node_state n.state)
      && not (node_transition_allowed n.state change.node_state))) [
        | inl shut ↦ inl (rw (store_node_event, e, shut) refl)
        | inr open_door ↦ elim (Bool-cases (disks rt.calls).lock_free) [
          | inr locked ↦ inl (rw (store_node_event, e, open_door, locked) refl)
          | inl free ↦
              let may : node_may n.state change.node_state ≡ true = ground arith in
              elim (commit-cases _ _ (disks rt.calls).append _ _ _) [
                | inl kept ↦ inl (rw (store_node_event, e, open_door, free) kept)
                | inr done ↦ inr (may, rw (store_node_event, e, open_door, free) done)
              ]
        ]
      ]

pub store_node_event-cases :
    (disks : ℕ → Disk) (rt : Runtime) (i : ℕ) (type : Str) (change : NodeChange) (message : Str)
    → ((store_node_event disks rt i type change message).1.graph ≡ rt.graph)
      ⊎ ((n : Node) × (get_elem? rt.graph.nodes i ≡ some n)
          × (node_may n.state change.node_state ≡ true)
          × ((store_node_event disks rt i type change message).1.graph
              ≡ node_after rt.graph i n change (disks rt.calls).clock))
unfolding store_node_event
store_node_event-cases disks rt i type change message =
    elim (Option-cases (get_elem? rt.graph.nodes i)) [
      | inl missing ↦ inl (rw (store_node_event, missing) refl)
      | inr (n, e) ↦ elim (store_found-cases disks rt i n type change message e) [
        | inl kept ↦ inl kept
        | inr (may, done) ↦ inr (n, e, may, done)
      ]
    ]
