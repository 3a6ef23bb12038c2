-- ===== src/Scheduler/Kept/Dispatched.antt =====
-- `dtg_scheduler_dispatch` of src/dstudio_task_scheduler.c keeps what the store calls about the
-- dispatched node and the beginning of an attempt keep.
use dstudio.Base.{ℕ, Bool, Str}
use dstudio.Graph.Types.{GraphState, NodeState, NodeKind, Node, Graph}
use dstudio.Graph.Kinds.{kind_eq}
use dstudio.Store.Types.{Disk, NodeChange, Runtime}
use dstudio.Store.{store_graph_event, store_node_event}
use dstudio.Scheduler.{scheduler_set_node}
use dstudio.Scheduler.Executor.{Begin, begin_failed, begun, Executor}
use dstudio.Scheduler.Kept.{IsPreorder}
use dstudio.Scheduler.Kept.Loops.{
  StepKeeps, and_then-Keeps, if-Keeps, set_node_by-Keeps, with_node-Keeps,
}
use dstudio.Scheduler.Run.{await_approval, scheduler_dispatch, start_attempt}

module _ (disks : ℕ → Disk) (ex : Executor) (i : ℕ) where
  pub record IsKeptAt (R : Graph → Graph → Type 0) : Type 0 where
    pub order : IsPreorder R
    pub graph_events :
        (rt : Runtime) (type : Str) (target : GraphState) (approved : Bool) (message : Str)
        → R rt.graph (store_graph_event disks rt type target approved message).1.graph
    pub node_events :
        (rt : Runtime) (type : Str) (change : NodeChange) (message : Str)
        → R rt.graph (store_node_event disks rt i type change message).1.graph
    pub begins : (rt : Runtime) (now : ℕ) → R rt.graph (ex.begin rt i now).1.graph

module _ {R : Graph → Graph → Type 0} {disks : ℕ → Disk} {ex : Executor} {i : ℕ}
    (k : IsKeptAt disks ex i R) where
  any_state-Keeps :
      (type : Str) (state : NodeState) (message : Str)
      → StepKeeps R (λ rt. scheduler_set_node disks rt i type state message)
  any_state-Keeps type state message =
      set_node_by-Keeps k.order disks i type state message
        λ rt change same. k.node_events rt type change message

  await_approval-Keeps : (n : Node) → StepKeeps R (await_approval disks i n)
  unfolding await_approval
  await_approval-Keeps n rt =
      if-Keeps k.order (kind_eq n.kind NodeKind.approval) rt.graph _ _
        (and_then-Keeps k.order rt.graph _ _ (any_state-Keeps _ NodeState.waiting_approval _ rt)
          λ rt'. k.graph_events rt' _ GraphState.waiting_approval _ _)
        (k.order.start rt.graph)

  start_attempt-Keeps : (b : Begin) (n : Node) → StepKeeps R (start_attempt disks i b n)
  unfolding start_attempt
  start_attempt-Keeps (begin_failed message) n rt = k.node_events rt _ _ message
  start_attempt-Keeps (begun attempt operation due) n rt =
      and_then-Keeps k.order rt.graph _ _ (k.node_events rt _ _ _)
        (with_node-Keeps k.order i (await_approval disks i) await_approval-Keeps)

  pub scheduler_dispatch-Keeps :
      (now : ℕ) → StepKeeps R (λ rt. scheduler_dispatch disks ex now rt i)
  unfolding scheduler_dispatch
  scheduler_dispatch-Keeps now rt =
      and_then-Keeps k.order rt.graph _ _ (any_state-Keeps _ NodeState.leased _ rt) λ rt'.
        let begin = ex.begin rt' i now in
        k.order.chain rt'.graph begin.1.graph _ (k.begins rt' now) (
          with_node-Keeps k.order i (start_attempt disks i begin.0) (start_attempt-Keeps begin.0)
            begin.1)
