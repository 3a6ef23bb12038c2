-- ===== src/Scheduler/Limits/Attempt.antt =====
-- `dtg_scheduler_dispatch` of src/dstudio_task_scheduler.c works at one node only.
use dstudio.Base.{
  ℕ, ◌≡◌, inl, inr, refl, sym, subst, ◌∙◌, Bool, true, Str, Bool-cases, some, get_elem?,
}
use dstudio.Graph.Types.{GraphState, Node, Graph}
use dstudio.Graph.Transition.{
  graph_enter, graph_state_eq, node_enter, node_state_eq, transition_graph_raw,
}
use dstudio.Store.Types.{Disk, NodeChange}
use dstudio.Store.{
  graph_after, move_graph, node_after, note_node, store_graph_event, store_node_event,
}
use dstudio.Store.Outcomes.{store_graph_event-cases, store_node_event-cases}
use dstudio.Store.Replay.GraphEvents.{graph_may}
use dstudio.Store.Replay.NodeEvents.{node_after-stay, node_after-step, node_may}
use dstudio.Scheduler.Executor.{Executor}
use dstudio.Scheduler.Kept.Dispatched.{IsKeptAt, scheduler_dispatch-Keeps}
use dstudio.Scheduler.Kept.Loops.{StepKeeps}
use dstudio.Scheduler.Limits.{
  Beside, Beside-of_same, Beside-refl, Beside-set, Beside-trans, KeepsWork,
}
use dstudio.Scheduler.Run.{scheduler_dispatch}

-- The graph is as before, but for the node at index `i` and what has no weight.
pub record WorksAt (i : ℕ) (g g' : Graph) : Type 0 where
  pub most : g'.max_parallel_host_nodes ≡ g.max_parallel_host_nodes
  pub nodes : Beside i g.nodes g'.nodes

WorksAt-refl : (i : ℕ) (g : Graph) → WorksAt i g g
WorksAt-refl i g = record { most = refl; nodes = Beside-refl i g.nodes }

WorksAt-trans : (i : ℕ) (g h k : Graph) → WorksAt i g h → WorksAt i h k → WorksAt i g k
WorksAt-trans i g h k a b = record {
  most = b.most ∙ a.most;
  nodes = Beside-trans i g.nodes h.nodes k.nodes a.nodes b.nodes;
}

graph_after-WorksAt :
    (i : ℕ) (g : Graph) (target : GraphState) (approved : Bool) (ts : ℕ)
    → graph_may g.state target ≡ true
    → WorksAt i g (graph_after g target approved ts)
unfolding graph_after move_graph transition_graph_raw graph_enter
graph_after-WorksAt i g target approved ts may = elim (Bool-cases (graph_state_eq target g.state)) [
  | inl stay ↦
      rw (graph_after, move_graph, stay) (record { most = refl; nodes = Beside-refl i g.nodes })
  | inr step ↦
      let allowed = rw step at may in
      rw (graph_after, move_graph, transition_graph_raw, step, allowed)
        (record { most = refl; nodes = Beside-refl i g.nodes })
]

node_after-WorksAt :
    (g : Graph) (i : ℕ) (n : Node) (change : NodeChange) (ts : ℕ)
    → get_elem? g.nodes i ≡ some n
    → node_may n.state change.node_state ≡ true
    → WorksAt i g (node_after g i n change ts)
unfolding note_node node_enter
node_after-WorksAt g i n change ts e may =
    elim (Bool-cases (node_state_eq change.node_state n.state)) [
      | inl stay ↦ rw (node_after-stay g i n change ts e may stay) (record {
        most = refl;
        nodes = Beside-set i g.nodes n _ e (record { kind = refl; mutation = refl });
      })
      | inr step ↦ rw (node_after-step g i n change ts e may step) (record {
        most = refl;
        nodes = Beside-set i g.nodes n _ e (record { kind = refl; mutation = refl });
      })
    ]

module _ (disks : ℕ → Disk) (i : ℕ) where
  store_graph_event-WorksAt :
      (type : Str) (target : GraphState) (approved : Bool) (message : Str)
      → StepKeeps (WorksAt i) (λ rt. store_graph_event disks rt type target approved message)
  store_graph_event-WorksAt type target approved message rt =
      elim (store_graph_event-cases disks rt type target approved message) [
        | inl kept ↦ subst (WorksAt i rt.graph) (sym kept) (WorksAt-refl i rt.graph)
        | inr (may, done) ↦
            subst (WorksAt i rt.graph) (sym done)
              (graph_after-WorksAt i rt.graph target approved _ may)
      ]

  store_node_event-WorksAt :
      (type : Str) (change : NodeChange) (message : Str)
      → StepKeeps (WorksAt i) (λ rt. store_node_event disks rt i type change message)
  store_node_event-WorksAt type change message rt =
      elim (store_node_event-cases disks rt i type change message) [
        | inl kept ↦ subst (WorksAt i rt.graph) (sym kept) (WorksAt-refl i rt.graph)
        | inr (n, e, may, done) ↦
            subst (WorksAt i rt.graph) (sym done) (node_after-WorksAt rt.graph i n change _ e may)
      ]

  WorksAt-IsKeptAt : (ex : Executor) → KeepsWork ex → IsKeptAt disks ex i (WorksAt i)
  WorksAt-IsKeptAt ex keeps = record {
    order = record { start = WorksAt-refl i; chain = WorksAt-trans i };
    graph_events = λ rt type target approved message.
        store_graph_event-WorksAt type target approved message rt;
    node_events = λ rt type change message. store_node_event-WorksAt type change message rt;
    begins = λ rt now.
        let same = keeps.begins rt i now in
        record { most = same.most; nodes = Beside-of_same i _ _ same.nodes };
  }

  pub scheduler_dispatch-WorksAt :
      (ex : Executor) (now : ℕ)
      → KeepsWork ex
      → StepKeeps (WorksAt i) (λ rt. scheduler_dispatch disks ex now rt i)
  scheduler_dispatch-WorksAt ex now keeps = scheduler_dispatch-Keeps (WorksAt-IsKeptAt ex keeps) now
