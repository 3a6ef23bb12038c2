-- ===== src/Scheduler/Run.antt =====
-- A node's attempt in src/dstudio_task_scheduler.c: `dtg_scheduler_dispatch` starts it,
-- `dtg_scheduler_finish_node` ends it. The task table outside the graph is left out.
use dstudio.Base.{
  ℕ, suc, Bool, true, false, not, ◌&&◌, ◌||◌, some, none, [], Str, codes, str_eq, is_empty,
  if◌then◌else◌, ◌==◌, ltb, get_elem?,
}
use dstudio.Graph.Types.{GraphState, NodeState, NodeKind, Node}
use dstudio.Graph.Kinds.{kind_eq}
use dstudio.Graph.Transition.{graph_state_eq}
use dstudio.Store.Types.{Disk, NodeChange, Runtime}
use dstudio.Store.{store_graph_event, store_node_event}
use dstudio.Scheduler.{and_then, scheduler_set_node}
use dstudio.Scheduler.Executor.{
  Begin, begin_failed, begun, Poll, poll_failed, at_work, finished, Executor,
}

-- The step of the node as it stands in the runtime.
abbrev pub with_node : ℕ → (Node → Runtime → Bool × Runtime) → Runtime → Bool × Runtime
with_node i step rt = elim (get_elem? rt.graph.nodes i) [ none ↦ (true, rt) | some n ↦ step n rt ]

-- No attempt is active.
abbrev pub without_attempt : Node → NodeState → NodeChange
without_attempt n state = record {
  node_state = state;
  attempts = n.attempts_started;
  attempt_id = [];
  operation_task_id = 0;
  synthetic_due_ms = 0;
}

-- The end of the active attempt.
abbrev pub end_attempt : Node → NodeState → NodeChange
end_attempt n state = record {
  node_state = state;
  attempts = n.attempts_started;
  attempt_id = n.active_attempt_id;
  operation_task_id = n.operation_task_id;
  synthetic_due_ms = 0;
}

-- `(void)`: the result is dropped, and the function fails.
abbrev pub then_fail : Bool × Runtime → Bool × Runtime
then_fail r = (false, r.1)

unfoldable pub await_approval : (ℕ → Disk) → ℕ → Node → Runtime → Bool × Runtime
await_approval disks i n rt =
    if kind_eq n.kind NodeKind.approval
    then and_then
        (scheduler_set_node disks rt i (codes "node.waiting_approval") NodeState.waiting_approval
          (codes "Waiting for explicit user approval"))
        (λ rt'.
          store_graph_event disks rt' (codes "graph.waiting_approval") GraphState.waiting_approval
            rt'.graph.approved (codes "Waiting for node approval"))
    else (true, rt)

unfoldable pub start_attempt : (ℕ → Disk) → ℕ → Begin → Node → Runtime → Bool × Runtime
start_attempt disks i (begin_failed message) n rt = then_fail (
    store_node_event disks rt i (codes "node.dispatch_deferred") (without_attempt n NodeState.ready)
      message)
start_attempt disks i (begun attempt operation due) n rt =
    and_then
      (store_node_event disks rt i (codes "attempt.started")
        (record {
          node_state = NodeState.running;
          attempts = suc n.attempts_started;
          attempt_id = attempt;
          operation_task_id = operation;
          synthetic_due_ms = due;
        })
        (if str_eq rt.graph.executor_mode (codes "native")
          then codes "Native attempt started with policy receipt"
          else codes "Synthetic attempt started"))
      (with_node i (await_approval disks i))

unfoldable pub scheduler_dispatch : (ℕ → Disk) → Executor → ℕ → Runtime → ℕ → Bool × Runtime
scheduler_dispatch disks ex now rt i =
    and_then
      (scheduler_set_node disks rt i (codes "node.leased") NodeState.leased
        (codes "Executor lease acquired"))
      (λ rt'. let begin = ex.begin rt' i now in with_node i (start_attempt disks i begin.0) begin.1)

abbrev pub continuation_message : Str
continuation_message = codes "Goal continuation required: completion evidence is not yet available"

-- The transcript of an `agent.prompt` that shows no tool call.
abbrev pub proven_no_effect : Node → Bool
proven_no_effect n =
    str_eq n.action_name (codes "agent.prompt")
    && n.action_require_tool_result
    && n.watchdog_tool_calls == 0

abbrev pub is_goal : Node → Bool
is_goal n = str_eq n.action_name (codes "agent.goal")

-- What follows a failed attempt: a new turn of a goal, a question to the user, or a retry.
unfoldable pub after_failure : (ℕ → Disk) → Bool → ℕ → Node → Runtime → Bool × Runtime
after_failure disks live i n rt =
    if is_goal n
      && str_eq n.native_message continuation_message
      && not n.native_cancel_requested
      && not n.watchdog_tripped
      && live
      && ltb n.attempts_started n.max_attempts
    then store_node_event disks rt i (codes "goal.continuation_scheduled")
        (without_attempt n NodeState.pending)
        (codes "Continue unfinished goal from current state; do not replay prior effects")
    else if is_goal n && graph_state_eq rt.graph.state GraphState.running
    then store_graph_event disks rt (codes "goal.needs_input") GraphState.needs_input
        rt.graph.approved
        (if ltb n.attempts_started n.max_attempts
          then n.native_message
          else codes "Goal turn budget exhausted; completion has not been verified")
    else if n.automatic_retry
        && (n.idempotent || proven_no_effect n)
        && ltb n.attempts_started n.max_attempts
    then store_node_event disks rt i (codes "node.retry_scheduled")
        (without_attempt n NodeState.pending)
        (if proven_no_effect n && not n.idempotent
          then codes "Automatic retry scheduled: transcript proves zero tool calls"
          else codes "Idempotent automatic retry scheduled")
    else (true, rt)

unfoldable pub close_attempt : (ℕ → Disk) → Bool → ℕ → Bool → Node → Runtime → Bool × Runtime
close_attempt disks live i true n rt =
    store_node_event disks rt i (codes "attempt.succeeded") (end_attempt n NodeState.succeeded)
      (codes "Node completed and result persisted")
close_attempt disks live i false n rt =
    and_then
      (store_node_event disks rt i (codes "attempt.failed") (end_attempt n NodeState.failed)
        (if is_empty n.native_message then codes "Node executor failed" else n.native_message))
      (with_node i (after_failure disks live i))

unfoldable pub end_poll : (ℕ → Disk) → Executor → ℕ → Poll → Runtime → Bool × Runtime
end_poll disks ex i poll_failed rt = (false, rt)
end_poll disks ex i at_work rt = (true, rt)
end_poll disks ex i (finished success) rt =
    and_then (ex.finish rt i success) (with_node i (close_attempt disks ex.live i success))

unfoldable pub finish_node : (ℕ → Disk) → Executor → ℕ → Runtime → ℕ → Bool × Runtime
finish_node disks ex now rt i =
    let polled = ex.poll rt i now in end_poll disks ex i polled.0 polled.1
