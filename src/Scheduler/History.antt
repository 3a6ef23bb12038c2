-- ===== src/Scheduler/History.antt =====
-- What may happen to a runtime: the commands of the task graph API, and ticks.
use dstudio.Base.{ℕ, List, [], ◌∷◌, Str}
use dstudio.Graph.Types.{Graph}
use dstudio.Store.Types.{Disk, Runtime}
use dstudio.Scheduler.Cancel.{scheduler_cancel}
use dstudio.Scheduler.Commands.{
  scheduler_approve_graph, scheduler_approve_node, scheduler_pause, scheduler_resume,
  scheduler_retry_node, scheduler_skip_node, scheduler_start,
}
use dstudio.Scheduler.Executor.{Executor}
use dstudio.Scheduler.Tick.{scheduler_tick}

pub data Command : Type 0 where
  start pause resume cancel approve : Command
  approve_node retry skip : Str → Command

unfoldable pub take_command : (ℕ → Disk) → Executor → Command → Runtime → Runtime
take_command disks ex start rt = (scheduler_start disks ex rt).1
take_command disks ex pause rt = (scheduler_pause disks rt).1
take_command disks ex resume rt = (scheduler_resume disks ex rt).1
take_command disks ex cancel rt = (scheduler_cancel disks rt).1
take_command disks ex approve rt = (scheduler_approve_graph disks ex rt).1
take_command disks ex (approve_node id) rt = (scheduler_approve_node disks ex id rt).1
take_command disks ex (retry id) rt = (scheduler_retry_node disks id rt).1
take_command disks ex (skip id) rt = (scheduler_skip_node disks id rt).1

-- A tick meets the other graphs of the registry and a time.
pub data Step : Type 0 where
  command : Command → Step
  tick : List Graph → ℕ → Step

unfoldable pub take_step : (ℕ → Disk) → Executor → Step → Runtime → Runtime
take_step disks ex (command c) rt = take_command disks ex c rt
take_step disks ex (tick others now) rt = scheduler_tick disks ex others now rt

unfoldable pub history : (ℕ → Disk) → Executor → List Step → Runtime → Runtime
history disks ex [] rt = rt
history disks ex (s ∷ steps) rt = history disks ex steps (take_step disks ex s rt)
