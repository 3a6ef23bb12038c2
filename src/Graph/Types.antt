-- ===== src/Graph/Types.antt =====
-- The data model of a task graph: the enums and structs at the head of src/dstudio_task_graph.c.
-- A node is split in what the planner's proposal fixes (`NodeSpec`) and what the run changes.
-- Counters, sizes and times in milliseconds are natural numbers; pointers that may be NULL are
-- options; fixed-size character arrays are byte strings. The positions of an agent's turn in the
-- transcript, the copy of the watchdog's counter and the undo fields of a node are left out.
use dstudio.Base.{ℕ, Bool, Option, List, Str}

pub data NodeKind : Type 0 where
  agent_turn host_tool gate approval join kind_invalid : NodeKind

pub data GraphState : Type 0 where
  draft validated ready running pausing paused waiting_approval needs_input succeeded failed
        cancelling cancelled corrupt state_invalid :
      GraphState

pub data NodeState : Type 0 where
  draft pending ready leased running waiting_approval paused cancelling interrupted succeeded failed
        cancelled blocked skipped state_invalid :
      NodeState

pub data Mutation : Type 0 where
  read_only artifact_only workspace_write external_side_effect mutation_invalid : Mutation

pub data Condition : Type 0 where
  dep_succeeded dep_terminal : Condition

pub record Dependency : Type 0 where
  pub node_id : Str
  pub condition : Condition

pub record OutputContract : Type 0 where
  pub name : Str
  pub type : Str
  pub path : Str
  pub required : Bool
  pub minimum_bytes : ℕ

-- A signed priority: `negsuc n` is -(n + 1).
pub data ℤ : Type 0 where
  pos : ℕ → ℤ
  negsuc : ℕ → ℤ

-- The closed-world action of a node.
pub record Action : Type 0 where
  pub action_name : Str
  pub action_path : Str
  pub action_text : Option Str
  pub action_display : Option Str
  pub action_expect : Option Str
  pub action_require_tool_result : Bool
  pub action_argv : List Str
  pub action_max_bytes : ℕ

pub record NodeSpec : Type 0 where
  pub id : Str
  pub title : Str
  pub description : Str
  pub kind : NodeKind
  pub mutation : Mutation
  pub dependencies : List Dependency
  pub outputs : List OutputContract
  pub capabilities : List Str
  pub max_attempts : ℕ
  pub automatic_retry : Bool
  pub idempotent : Bool
  pub optional : Bool
  pub priority : ℤ
  pub timeout_ms : ℕ
  pub synthetic_delay_ms : ℕ
  pub synthetic_should_fail : Bool
  pub action : Action
  pub open action use *

pub record Node : Type 0 where
  pub spec : NodeSpec
  pub open spec use *
  pub state : NodeState
  pub attempts_started : ℕ
  pub active_attempt_id : Str
  pub operation_task_id : ℕ
  pub ready_ms : ℕ
  pub started_ms : ℕ
  pub finished_ms : ℕ
  pub synthetic_due_ms : ℕ
  pub native_pid : ℕ
  pub native_done : Bool
  pub native_success : Bool
  pub native_cancel_requested : Bool
  pub watchdog_tool_calls : ℕ
  pub watchdog_tripped : Bool
  pub native_message : Str

pub record GraphSpec : Type 0 where
  pub id : Str
  pub revision : ℕ
  pub schema_version : ℕ
  pub policy : Str
  pub mode : Str
  pub executor_mode : Str
  pub goal : Str
  pub workspace : Str
  pub approval_required : Bool
  pub max_parallel_host_nodes : ℕ
  pub max_parallel_llm_nodes : ℕ
  pub max_attempts_per_node : ℕ
  pub edge_count : ℕ

pub record Graph : Type 0 where
  pub spec : GraphSpec
  pub open spec use *
  pub state : GraphState
  pub approved : Bool
  pub nodes : List Node
  pub last_event_seq : ℕ
  pub created_ms : ℕ
  pub updated_ms : ℕ
  pub started_ms : ℕ
  pub completed_ms : ℕ
  pub error : Str
