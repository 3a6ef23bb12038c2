-- ===== src/Store/Types.antt =====
-- The state of src/dstudio_task_store.c: a graph in memory (`dtg_runtime`), its event log on disk,
-- and what the operating system answers to one store call.
use dstudio.Base.{ℕ, Bool, List, Str, Option}
use dstudio.Graph.Types.{Graph, NodeState}

-- What a node event sets in the node.
pub record NodeChange : Type 0 where
  pub node_state : NodeState
  pub attempts : ℕ
  pub attempt_id : Str
  pub operation_task_id : ℕ
  pub synthetic_due_ms : ℕ

-- The part of an event about a node, as the line spells it.
pub record NodeEvent : Type 0 where
  pub node_id : Str
  pub node_state : Str
  pub attempts : ℕ
  pub attempt_id : Str
  pub operation_task_id : ℕ
  pub synthetic_due_ms : ℕ

-- The fields of one line of events.jsonl; states are spelled by their names.
pub record Event : Type 0 where
  pub seq : ℕ
  pub ts : ℕ
  pub type : Str
  pub graph_id : Str
  pub revision : ℕ
  pub graph_state : Str
  pub approved : Bool
  pub node : Option NodeEvent
  pub message : Str

-- A line that is complete. It is garbled where it goes on behind a fragment.
pub data Line : Type 0 where
  written : Event → Line
  garbled : Line

-- `ragged`: the file ends in a fragment of a line. `size` is the file's, in bytes, and `calls` counts
-- the store calls.
pub record Runtime : Type 0 where
  pub graph : Graph
  pub lines : List Line
  pub ragged : Bool
  pub size : ℕ
  pub corrupt : Bool
  pub workspace_real : Str
  pub loaded_ms : ℕ
  pub calls : ℕ

-- How `dtg_append_event_locked` ends: the file does not open; the write, the sync or the close
-- fails, with the whole line in the file or a fragment of it; the failure that a test injects
-- behind the append; success.
pub data Append : Type 0 where
  unopened : Append
  torn : Bool → Append
  injected : Append
  appended : Append

-- What one store call meets: the lock, the clock, the append and the bytes by which it lets the file
-- grow, and whether the snapshot is written.
pub record Disk : Type 0 where
  pub lock_free : Bool
  pub clock : ℕ
  pub append : Append
  pub bytes : ℕ
  pub snapshot : Bool
