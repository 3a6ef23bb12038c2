-- ===== src/Scheduler/Executor.antt =====
-- What the scheduler asks of src/dstudio_task_executor.c. An executor may write in the runtime that
-- it is given; what the scheduler relies on is `IsCareful`: that it leaves the states alone.
use dstudio.Base.{ℕ, ◌≡◌, Bool, Option, some, Str, get_elem?}
use dstudio.Graph.Types.{Node, Graph}
use dstudio.Store.Types.{Runtime}

-- `dtg_executor_begin` fails with a message, or gives an attempt id, an operation and a due time.
pub data Begin : Type 0 where
  begin_failed : Str → Begin
  begun : Str → ℕ → ℕ → Begin

-- `dtg_executor_poll` fails, finds the node at work, or finds it finished, with or without success.
pub data Poll : Type 0 where
  poll_failed at_work : Poll
  finished : Bool → Poll

-- `live` is `g_child > 0 && g_ready`, and `owns` says of a node whether it is
-- `g_dtg_agent_owner_node`.
pub record Executor : Type 0 where
  pub can_dispatch : Node → Bool
  pub begin : Runtime → ℕ → ℕ → Begin × Runtime
  pub poll : Runtime → ℕ → ℕ → Poll × Runtime
  pub finish : Runtime → ℕ → Bool → Bool × Runtime
  pub graph_available : Graph → Bool
  pub context_preflight : Graph → Bool
  pub approval_receipt : Runtime → Option ℕ → Bool
  pub attempt_result : Runtime → ℕ → Bool
  pub live : Bool
  pub owns : Runtime → ℕ → Bool

-- The states of the graph and of its nodes are as before.
pub record SameStates (rt rt' : Runtime) : Type 0 where
  pub graph_state : rt'.graph.state ≡ rt.graph.state
  pub nodes :
      (j : ℕ) (n : Node)
      → get_elem? rt.graph.nodes j ≡ some n
      → (m : Node) × (get_elem? rt'.graph.nodes j ≡ some m) × (m.state ≡ n.state)

pub record IsCareful (ex : Executor) : Type 0 where
  pub begin_states : (rt : Runtime) (i now : ℕ) → SameStates rt (ex.begin rt i now).1
  pub poll_states : (rt : Runtime) (i now : ℕ) → SameStates rt (ex.poll rt i now).1
  pub finish_states : (rt : Runtime) (i : ℕ) (ok : Bool) → SameStates rt (ex.finish rt i ok).1
