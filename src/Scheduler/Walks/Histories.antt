-- ===== src/Scheduler/Walks/Histories.antt =====
-- Every history of a runtime keeps to accepted transitions, and so a terminal graph keeps its state.
use dstudio.Base.{ℕ, ◌≡◌, sym, subst, true, List}
use dstudio.Graph.Types.{Graph}
use dstudio.Graph.Transition.{graph_terminal}
use dstudio.Graph.Transition.Walks.{GraphWalk, NodeWalk, graph_terminal_absorbs}
use dstudio.Store.Types.{Disk, Runtime}
use dstudio.Scheduler.Executor.{Executor, IsCareful, SameStates}
use dstudio.Scheduler.History.{Step, history}
use dstudio.Scheduler.Kept.{IsKept, IsPreorder}
use dstudio.Scheduler.Kept.Dispatched.{IsKeptAt, scheduler_dispatch-Keeps}
use dstudio.Scheduler.Kept.Histories.{history-Keeps}
use dstudio.Scheduler.Walks.{
  Walks, Walks-refl, Walks-trans, store_graph_event-Walks, store_node_event-Walks,
  update_node-Walks,
}

SameStates-Walks : (rt rt' : Runtime) → SameStates rt rt' → Walks rt.graph rt'.graph
SameStates-Walks rt rt' same = record {
  whole = subst (GraphWalk rt.graph.state) (sym same.graph_state) GraphWalk.here;
  nodes = λ j n e.
      let (m, at_m, equal) = same.nodes j n e in
      (m, at_m, subst (NodeWalk n.state) (sym equal) NodeWalk.here);
}

Walks-IsPreorder : IsPreorder Walks
Walks-IsPreorder = record { start = Walks-refl; chain = Walks-trans }

module _ (disks : ℕ → Disk) (ex : Executor) (careful : IsCareful ex) where
  Walks-IsKeptAt : (i : ℕ) → IsKeptAt disks ex i Walks
  Walks-IsKeptAt i = record {
    order = Walks-IsPreorder;
    graph_events = store_graph_event-Walks disks;
    node_events = λ rt. store_node_event-Walks disks rt i;
    begins = λ rt now. SameStates-Walks rt _ (careful.begin_states rt i now);
  }

  Walks-IsKept : (others : List Graph) → IsKept disks ex others Walks
  Walks-IsKept others = record {
    order = Walks-IsPreorder;
    graph_events = store_graph_event-Walks disks;
    node_events =
        λ rt i type change message other. store_node_event-Walks disks rt i type change message;
    notes = λ f i g same. update_node-Walks f i g λ n. (same n).state;
    errors = λ g message. record { whole = GraphWalk.here; nodes = λ j n e. (n, e, NodeWalk.here) };
    polls = λ rt i now. SameStates-Walks rt _ (careful.poll_states rt i now);
    finishes = λ rt i ok. SameStates-Walks rt _ (careful.finish_states rt i ok);
    dispatches = λ now rt i n chosen. scheduler_dispatch-Keeps (Walks-IsKeptAt i) now rt;
  }

-- Whatever the disks answer, commands and ticks in any order lead the graph and each of its nodes
-- along accepted transitions, and no node is lost, if the executor leaves the states alone.
pub history-Walks :
    (disks : ℕ → Disk) (ex : Executor) (steps : List Step) (rt : Runtime)
    → IsCareful ex
    → Walks rt.graph (history disks ex steps rt).graph
history-Walks disks ex steps rt careful = history-Keeps (Walks-IsKept disks ex careful) steps rt

-- A graph that is terminal keeps its state through commands and ticks in any order, whatever the
-- disks answer, if the executor leaves the states alone.
pub history-terminal :
    (disks : ℕ → Disk) (ex : Executor) (steps : List Step) (rt : Runtime)
    → IsCareful ex
    → graph_terminal rt.graph.state ≡ true
    → (history disks ex steps rt).graph.state ≡ rt.graph.state
history-terminal disks ex steps rt careful done =
    graph_terminal_absorbs rt.graph.state (history disks ex steps rt).graph.state done
      (history-Walks disks ex steps rt careful).whole
