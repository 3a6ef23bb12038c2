-- ===== src/Scheduler/Kept/Cancelled.antt =====
-- Cancellation keeps what the store calls keep.
use dstudio.Base.{List, ℕ, refl, not, Str, codes}
use dstudio.Graph.Types.{Graph, GraphState, Node, NodeState}
use dstudio.Graph.Transition.{graph_state_eq, graph_terminal, node_state_eq, node_terminal}
use dstudio.Store.Types.{Disk, Runtime}
use dstudio.Scheduler.Cancel.{
  cancel_node, drop_node, executor_cancel, executor_cancel_at, is_active, not_started,
  process_cancelling, scheduler_cancel, settle_at, settle_node,
}
use dstudio.Scheduler.Executor.{Executor}
use dstudio.Scheduler.Kept.{IsKept}
use dstudio.Scheduler.Kept.Loops.{
  and_then-Keeps, StepKeeps, each_node-Keeps, with_node-Keeps, if-Keeps, set_node-Keeps,
}
use dstudio.Scheduler.Kept.{same_work}

module _ {R : Graph → Graph → Type 0} {disks : ℕ → Disk} {ex : Executor} {others : List Graph}
    (k : IsKept disks ex others R) where
  pub executor_cancel_at-Keeps :
      (i : ℕ) (reason : Str) (rt : Runtime) → R rt.graph (executor_cancel_at rt i reason).graph
  unfolding executor_cancel_at executor_cancel
  executor_cancel_at-Keeps i reason rt =
      k.notes (executor_cancel reason) i rt.graph λ n. same_work n _ refl refl refl

  settle_node-Keeps : (i : ℕ) (n : Node) → StepKeeps R (settle_node disks i n)
  unfolding settle_node
  settle_node-Keeps i n rt =
      let rt' = executor_cancel_at rt i (codes "Task graph cancelled") in
      if-Keeps k.order (node_state_eq n.state NodeState.cancelling) rt.graph _ _
        (k.order.chain rt.graph rt'.graph _ (executor_cancel_at-Keeps i _ rt)
          (set_node-Keeps k i _ NodeState.cancelled _ tt rt'))
        (set_node-Keeps k i _ NodeState.cancelled _ tt rt)

  settle_at-Keeps : (i : ℕ) → StepKeeps R (settle_at disks i)
  unfolding settle_at
  settle_at-Keeps i = with_node-Keeps k.order i (settle_node disks i) (settle_node-Keeps i)

  cancel_node-Keeps : (i : ℕ) → StepKeeps R (λ rt. cancel_node disks rt i)
  unfolding cancel_node
  cancel_node-Keeps i = with_node-Keeps k.order i _ λ n rt.
      if-Keeps k.order (node_terminal n.state) rt.graph _ _ (k.order.start rt.graph) (
        if-Keeps k.order (is_active n.state) rt.graph _ _
          (and_then-Keeps k.order rt.graph _ (settle_at disks i)
            (set_node-Keeps k i _ NodeState.cancelling _ tt rt) (settle_at-Keeps i))
          (settle_at-Keeps i rt))

  pub process_cancelling-Keeps : StepKeeps R (process_cancelling disks)
  unfolding process_cancelling
  process_cancelling-Keeps rt =
      if-Keeps k.order (not (graph_state_eq rt.graph.state GraphState.cancelling)) rt.graph _ _
        (k.order.start rt.graph)
        (and_then-Keeps k.order rt.graph _ _ (each_node-Keeps k.order _ cancel_node-Keeps rt)
          λ rt'. k.graph_events rt' _ GraphState.cancelled _ _)

  drop_node-Keeps : (i : ℕ) → StepKeeps R (λ rt. drop_node disks rt i)
  unfolding drop_node
  drop_node-Keeps i = with_node-Keeps k.order i _ λ n rt.
      if-Keeps k.order (node_terminal n.state) rt.graph _ _ (k.order.start rt.graph)
        (set_node-Keeps k i _ NodeState.cancelled _ tt rt)

  pub scheduler_cancel-Keeps : StepKeeps R (scheduler_cancel disks)
  unfolding scheduler_cancel
  scheduler_cancel-Keeps rt =
      if-Keeps k.order (graph_terminal rt.graph.state) rt.graph _ _ (k.order.start rt.graph) (
        if-Keeps k.order (not_started rt.graph.state) rt.graph _ _
          (and_then-Keeps k.order rt.graph _ _ (each_node-Keeps k.order _ drop_node-Keeps rt)
            λ rt'. k.graph_events rt' _ GraphState.cancelled _ _)
          (and_then-Keeps k.order rt.graph _ _ (k.graph_events rt _ GraphState.cancelling _ _)
            process_cancelling-Keeps))
