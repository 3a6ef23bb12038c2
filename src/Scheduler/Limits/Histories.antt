-- ===== src/Scheduler/Limits/Histories.antt =====
-- The limits on parallel work hold through every history of a runtime of
-- src/dstudio_task_scheduler.c.
use dstudio.Base.{ℕ, List, []}
use dstudio.Graph.Types.{Graph}
use dstudio.Store.Types.{Disk, Runtime}
use dstudio.Scheduler.Executor.{Executor}
use dstudio.Scheduler.History.{Step, history}
use dstudio.Scheduler.Kept.{IsKept}
use dstudio.Scheduler.Kept.Histories.{history-Keeps}
use dstudio.Scheduler.Limits.{IsWithinLimits, KeepsWork}
use dstudio.Scheduler.Limits.Calm.{
  Calms, Calms-IsWithinLimits, Calms-refl, SameLoad-Calms, store_graph_event-Calms,
  store_node_event-Calms, update_node-Calms,
}
use dstudio.Scheduler.Limits.Dispatch.{AreAmong, chosen-IsWithinLimits, none_among}

-- The limits, held over `watched` while a tick meets `others`.
abbrev pub StaysWithin : List Graph → Graph → Graph → Type 0
StaysWithin watched g g' = IsWithinLimits g watched → IsWithinLimits g' watched

module _ (disks : ℕ → Disk) (ex : Executor) (keeps : KeepsWork ex) (others watched : List Graph)
    (spread : AreAmong watched others) where
  stays : (g g' : Graph) → Calms g g' → StaysWithin watched g g'
  stays g g' = Calms-IsWithinLimits g g' watched

  pub StaysWithin-IsKept : IsKept disks ex others (StaysWithin watched)
  StaysWithin-IsKept = record {
    order = record {
      start = λ g held. held;
      chain = λ g h k first second held. second (first held);
    };
    graph_events = λ rt type target approved message.
        stays rt.graph _ (store_graph_event-Calms disks rt type target approved message);
    node_events = λ rt i type change message other.
        stays rt.graph _ (store_node_event-Calms disks rt i type change message other);
    notes = λ f i g same. stays g _ (update_node-Calms f i g same);
    errors = λ g message.
        stays g _ (record { most = (Calms-refl g).most; nodes = (Calms-refl g).nodes });
    polls = λ rt i now. stays rt.graph _ (SameLoad-Calms rt.graph _ (keeps.polls rt i now));
    finishes = λ rt i ok. stays rt.graph _ (SameLoad-Calms rt.graph _ (keeps.finishes rt i ok));
    dispatches = λ now rt i n chosen.
        chosen-IsWithinLimits disks ex others watched now rt i n keeps spread chosen;
  }

-- Through commands and ticks in any order, whatever the disks answer and whatever the other graphs
-- do, a graph never has two agents' turns or two writers at work, nor more host tools than it
-- admits; where that is so at first, and the executor changes no node's kind, mutation class or state
-- and not the graph's limit.
pub history-IsWithinLimits :
    (disks : ℕ → Disk) (ex : Executor) (steps : List Step) (rt : Runtime)
    → KeepsWork ex
    → IsWithinLimits rt.graph []
    → IsWithinLimits (history disks ex steps rt).graph []
history-IsWithinLimits disks ex steps rt keeps =
    history-Keeps (λ others. StaysWithin-IsKept disks ex keeps others [] (none_among others)) steps
      rt
