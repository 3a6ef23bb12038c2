-- ===== src/Scheduler/Kept/Histories.antt =====
-- Every history of a runtime keeps what the store calls, the executor and each dispatch keep.
use dstudio.Base.{ℕ, List, [], ◌∷◌}
use dstudio.Graph.Types.{Graph}
use dstudio.Store.Types.{Disk, Runtime}
use dstudio.Scheduler.Executor.{Executor}
use dstudio.Scheduler.History.{
  Command, command, take_command, Step, start, pause, resume, cancel, approve, approve_node, retry,
  skip, tick, history, take_step,
}
use dstudio.Scheduler.Kept.{IsKept}
use dstudio.Scheduler.Kept.Cancelled.{scheduler_cancel-Keeps}
use dstudio.Scheduler.Kept.Commanded.{
  scheduler_approve_graph-Keeps, scheduler_approve_node-Keeps, scheduler_pause-Keeps,
  scheduler_resume-Keeps, scheduler_retry_node-Keeps, scheduler_skip_node-Keeps,
  scheduler_start-Keeps,
}
use dstudio.Scheduler.Kept.Ticked.{scheduler_tick-Keeps}

module _ {R : Graph → Graph → Type 0} {disks : ℕ → Disk} {ex : Executor} {others : List Graph}
    (k : IsKept disks ex others R) where
  pub take_command-Keeps :
      (c : Command) (rt : Runtime) → R rt.graph (take_command disks ex c rt).graph
  unfolding take_command
  take_command-Keeps start rt = scheduler_start-Keeps k rt
  take_command-Keeps pause rt = scheduler_pause-Keeps k rt
  take_command-Keeps resume rt = scheduler_resume-Keeps k rt
  take_command-Keeps cancel rt = scheduler_cancel-Keeps k rt
  take_command-Keeps approve rt = scheduler_approve_graph-Keeps k rt
  take_command-Keeps (approve_node id) rt = scheduler_approve_node-Keeps k id rt
  take_command-Keeps (retry id) rt = scheduler_retry_node-Keeps k id rt
  take_command-Keeps (skip id) rt = scheduler_skip_node-Keeps k id rt

module _ {R : Graph → Graph → Type 0} {disks : ℕ → Disk} {ex : Executor}
    (k : (others : List Graph) → IsKept disks ex others R) where
  take_step-Keeps : (s : Step) (rt : Runtime) → R rt.graph (take_step disks ex s rt).graph
  unfolding take_step
  take_step-Keeps (command c) rt = take_command-Keeps (k []) c rt
  take_step-Keeps (tick others now) rt = scheduler_tick-Keeps (k others) now rt

  pub history-Keeps :
      (steps : List Step) (rt : Runtime) → R rt.graph (history disks ex steps rt).graph
  unfolding history
  history-Keeps [] rt = (k []).order.start rt.graph
  history-Keeps (s ∷ steps) rt =
      (k []).order.chain rt.graph (take_step disks ex s rt).graph _ (take_step-Keeps s rt)
        (history-Keeps steps (take_step disks ex s rt))
