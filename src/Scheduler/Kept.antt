-- ===== src/Scheduler/Kept.antt =====
-- Relations between a graph and a later one that all of src/dstudio_task_scheduler.c keeps to, where
-- the store calls, the executor and a dispatch do.
pub mod Loops
pub mod Cancelled
pub mod Commanded
pub mod Attempts
pub mod Dispatched
pub mod Ticked
pub mod Histories
use dstudio.Base.{ℕ, ◌≡◌, ◌∷◌, Bool, List, some, Str}
use dstudio.Graph.Types.{GraphState, NodeState, NodeKind, Mutation, Node, Graph}
use dstudio.Store.Types.{Disk, NodeChange, Runtime}
use dstudio.Store.{store_graph_event, store_node_event, update_node}
use dstudio.Scheduler.Executor.{Executor}
use dstudio.Scheduler.Ready.{next_ready}
use dstudio.Scheduler.Run.{scheduler_dispatch}

pub record IsPreorder (R : Graph → Graph → Type 0) : Type 0 where
  pub start : (g : Graph) → R g g
  pub chain : (g h k : Graph) → R g h → R h k → R g k

-- What decides which limits hold for a node; and whether it is at work besides.
pub record SameCast (n m : Node) : Type 0 where
  pub kind : m.kind ≡ n.kind
  pub mutation : m.mutation ≡ n.mutation

pub record SameWork (n m : Node) : Type 0 where
  pub cast : SameCast n m
  pub state : m.state ≡ n.state

pub same_work :
    (n m : Node) → m.kind ≡ n.kind → m.mutation ≡ n.mutation → m.state ≡ n.state → SameWork n m
same_work n m kind mutation state = record {
  cast = record { kind = kind; mutation = mutation };
  state = state;
}

-- Only a dispatch leases a node.
abbrev pub NotLeased : NodeState → Type 0
NotLeased NodeState.leased = ⊥
NotLeased _ = Unit

-- `others` are the graphs of the other runtimes, as a tick meets them.
module _ (disks : ℕ → Disk) (ex : Executor) (others : List Graph) where
  pub record IsKept (R : Graph → Graph → Type 0) : Type 0 where
    pub order : IsPreorder R
    pub graph_events :
        (rt : Runtime) (type : Str) (target : GraphState) (approved : Bool) (message : Str)
        → R rt.graph (store_graph_event disks rt type target approved message).1.graph
    pub node_events :
        (rt : Runtime) (i : ℕ) (type : Str) (change : NodeChange) (message : Str)
        → NotLeased change.node_state
        → R rt.graph (store_node_event disks rt i type change message).1.graph
    pub notes :
        (f : Node → Node) (i : ℕ) (g : Graph)
        → ((n : Node) → SameWork n (f n))
        → R g (update_node f i g)
    pub errors : (g : Graph) (message : Str) → R g (record g { error = message })
    pub polls : (rt : Runtime) (i now : ℕ) → R rt.graph (ex.poll rt i now).1.graph
    pub finishes : (rt : Runtime) (i : ℕ) (ok : Bool) → R rt.graph (ex.finish rt i ok).1.graph
    pub dispatches :
        (now : ℕ) (rt : Runtime) (i : ℕ) (n : Node)
        → next_ready ex.can_dispatch (rt.graph ∷ others) rt.graph ≡ some (i, n)
        → R rt.graph (scheduler_dispatch disks ex now rt i).1.graph
