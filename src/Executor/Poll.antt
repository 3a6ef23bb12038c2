-- ===== src/Executor/Poll.antt =====
-- `dtg_executor_poll` of src/dstudio_task_executor.c. `Turn` holds what it learns from the agent's
-- process, the task table and the system; a pointer to the node is its index.
-- That the turn has no owner behind its end is the next `Turn`'s to say.
pub mod Evidence
use dstudio.Base.{
  cstr_copy, ℕ, Bool, true, false, not, ◌&&◌, ◌||◌, Option, some, none, Str, codes, str_eq,
  if◌then◌else◌, ltb, get_elem?, set,
}
use dstudio.Graph.Types.{NodeKind, Node, Graph}
use dstudio.Graph.Kinds.{kind_eq}
use dstudio.Scheduler.Executor.{Poll, poll_failed, at_work, finished}
use dstudio.Scheduler.Run.{is_goal}
use dstudio.Store.Types.{Runtime}

-- `dtg_agent_completion_contract`: met, or not, with its message and whether the user is asked.
pub data Contract : Type 0 where
  met : Contract
  unmet : Str → Bool → Contract

-- `waitpid` with WNOHANG: nothing yet; or whether this process exited with status 0, and the
-- message that names its status.
pub data Waited : Type 0 where
  not_yet : Waited
  exited : Bool → Str → Waited

pub record Turn : Type 0 where
  pub owner : Bool
  pub agent_working : Bool
  pub transcript_written : Bool
  pub turn_completed : Bool
  pub live : Bool
  pub contract : Node → Contract
  pub receipt_message : Str
  pub waited : Waited

unfoldable pub poll_synthetic : ℕ → Node → Poll × Node
poll_synthetic now n =
    let success = not n.synthetic_should_fail && not n.native_cancel_requested in
    if ltb now n.synthetic_due_ms then (at_work, n) else (
      finished success,
      record n {
        native_message =
            if success
            then codes "Synthetic executor completed"
            else codes "Synthetic executor injected failure";
      },
    )

abbrev pub is_healthy : Turn → Node → Bool
is_healthy t n =
    not n.watchdog_tripped && not n.native_cancel_requested && t.live && t.turn_completed

abbrev pub end_turn : Bool → Str → Node → Node
end_turn success message n = record n {
  native_done = true;
  native_success = success;
  native_message = message;
}

unfoldable pub judge_contract : Contract → Node → Node
judge_contract met n =
    end_turn true
      (if n.action_require_tool_result
        then codes "Agent turn completed with verified tool evidence and receipt"
        else codes "Agent turn completed at WAITING boundary")
      n
judge_contract (unmet message needs_input) n =
    end_turn false
      (if not (is_goal n)
        then cstr_copy 511 message
        else if needs_input
        then codes "Goal needs user input; previous effects are preserved"
        else codes "Goal continuation required: completion evidence is not yet available")
      n

unfoldable pub close_turn : Turn → Node → Node
close_turn t n =
    if is_healthy t n
    then judge_contract (t.contract n) n
    else end_turn false
        (if n.watchdog_tripped || n.native_cancel_requested
          then n.native_message
          else if not t.turn_completed
          then cstr_copy 511 t.receipt_message
          else codes "Agent runtime exited before a healthy completion boundary")
        n

unfoldable pub conclude : Node → Poll × Node
conclude n = if n.native_done then (finished n.native_success, n) else (at_work, n)

unfoldable pub reap : Waited → Node → Poll × Node
reap not_yet n = (at_work, n)
reap (exited zero_status message) n =
    let success = zero_status && not n.native_cancel_requested in
    conclude (record n {
      native_pid = 0;
      native_done = true;
      native_success = success;
      native_message =
          if success then codes "Test process completed successfully" else cstr_copy 511 message;
    })

unfoldable pub settle_process : Turn → Node → Poll × Node
settle_process t n = if ltb 0 n.native_pid then reap t.waited n else conclude n

unfoldable pub poll_native : Turn → Node → Poll × Node
poll_native t n =
    if kind_eq n.kind NodeKind.approval
    then (at_work, n)
    else if not t.owner
    then settle_process t n
    else if t.agent_working
    then (at_work, n)
    else if not t.transcript_written
    then (poll_failed, n)
    else settle_process t (close_turn t n)

unfoldable pub poll_one : Turn → Str → ℕ → Node → Poll × Node
poll_one t mode now n =
    if str_eq mode (codes "synthetic") then poll_synthetic now n else poll_native t n

unfoldable pub executor_poll : Turn → Runtime → ℕ → ℕ → Poll × Runtime
executor_poll t rt i now = elim (get_elem? rt.graph.nodes i) [
  | none ↦ (poll_failed, rt)
  | some n ↦
      let polled = poll_one t rt.graph.executor_mode now n in
      (polled.0, record rt { graph = record rt.graph { nodes = set rt.graph.nodes i polled.1 } })
]
