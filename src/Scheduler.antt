-- ===== src/Scheduler.antt =====
-- src/dstudio_task_scheduler.c: the calls of the store that the scheduler makes, and its loops over
-- the nodes of a graph. A C function that may return 0 in the middle returns its result and the
-- runtime as it leaves it.
pub mod Healthy
pub mod Cancel
pub mod Ready
pub mod Limits
pub mod Executor
pub mod Run
pub mod Tick
pub mod Commands
pub mod History
pub mod Turns
pub mod Kept
pub mod Walks
pub mod Finalize
use dstudio.Base.{ℕ, zero, suc, Bool, true, false, Option, some, none, Str, get_elem?, length}
use dstudio.Graph.Types.{NodeState, Node, Graph}
use dstudio.Store.Types.{NodeChange, Disk, Runtime}
use dstudio.Store.{store_node_event}

-- `if (!first) return 0;`, and the rest.
abbrev pub and_then : Bool × Runtime → (Runtime → Bool × Runtime) → Bool × Runtime
and_then (false, rt) rest = (false, rt)
and_then (true, rt) rest = rest rt

-- `for (...) if (!step) return 0;` over `k` nodes from node `i` on.
unfoldable pub each : (Runtime → ℕ → Bool × Runtime) → ℕ → ℕ → Runtime → Bool × Runtime
each step i zero rt = (true, rt)
each step i (suc k) rt = and_then (step rt i) λ rt'. each step (suc i) k rt'

abbrev pub each_node : (Runtime → ℕ → Bool × Runtime) → Runtime → Bool × Runtime
each_node step rt = each step 0 (length rt.graph.nodes) rt

-- The change that leaves everything but the state.
abbrev pub only_state : Node → NodeState → NodeChange
only_state n state = record {
  node_state = state;
  attempts = n.attempts_started;
  attempt_id = n.active_attempt_id;
  operation_task_id = n.operation_task_id;
  synthetic_due_ms = n.synthetic_due_ms;
}

-- `dtg_scheduler_set_node`, for the node at index `i`.
unfoldable pub scheduler_set_node :
    (ℕ → Disk) → Runtime → ℕ → Str → NodeState → Str → Bool × Runtime
scheduler_set_node disks rt i type state message = elim (get_elem? rt.graph.nodes i) [
  | none ↦ (false, rt)
  | some n ↦ store_node_event disks rt i type (only_state n state) message
]
