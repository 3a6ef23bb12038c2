-- ===== src/Scheduler/Turns.antt =====
-- `dtg_scheduler_tick` of src/dstudio_task_scheduler.c over the whole registry, and what may happen
-- to the runtimes in use: commands to any of them, and ticks of all. Each meets disks of its own.
use dstudio.Base.{ℕ, List, [], ◌∷◌, ◌++◌, none, some, get_elem?, length, set}
use dstudio.Graph.Types.{Graph}
use dstudio.Store.Types.{Disk, Runtime}
use dstudio.Scheduler.Executor.{Executor}
use dstudio.Scheduler.History.{Command, take_command}
use dstudio.Scheduler.Tick.{scheduler_tick}

abbrev pub graphs : List Runtime → List Graph
graphs [] = []
graphs (rt ∷ rts) = rt.graph ∷ graphs rts

-- `for (int r = 0; r < DTG_MAX_REGISTRY; r++)`, with the runtimes that had their turn.
unfoldable pub tick_from :
    (ℕ → ℕ → Disk) → Executor → ℕ → List Runtime → List Runtime → List Runtime
tick_from disks ex now done [] = done
tick_from disks ex now done (rt ∷ todo) =
    tick_from disks ex now
      (done ++ scheduler_tick (disks (length done)) ex (graphs (done ++ todo)) now rt ∷ []) todo

unfoldable pub registry_tick : (ℕ → ℕ → Disk) → Executor → ℕ → List Runtime → List Runtime
registry_tick disks ex now registry = tick_from disks ex now [] registry

-- A command names the runtime by its index.
pub data Turn : Type 0 where
  commanded : ℕ → Command → Turn
  ticked : ℕ → Turn

unfoldable pub take_turn : (ℕ → ℕ → Disk) → Executor → Turn → List Runtime → List Runtime
take_turn disks ex (commanded r c) registry = elim (get_elem? registry r) [
  | none ↦ registry
  | some rt ↦ set registry r (take_command (disks r) ex c rt)
]
take_turn disks ex (ticked now) registry = registry_tick disks ex now registry

unfoldable pub take_turns : (ℕ → ℕ → Disk) → Executor → List Turn → List Runtime → List Runtime
take_turns disks ex [] registry = registry
take_turns disks ex (t ∷ turns) registry = take_turns disks ex turns (take_turn disks ex t registry)
