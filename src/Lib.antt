-- ===== src/Lib.antt =====
-- DStudio: the parts of its host program that decide. Most is about Task Graph V1, the engine that
-- validates a graph of agent turns, host tools, gates, approvals and joins, and moves its nodes and
-- itself between states; beside it stand the steering of a running turn, the JSON grammar and unified patches.
-- The C files are parts of one translation unit, src/dstudio.c.
--
-- Parts, and where they stand:
--
-- - Base: what the modules share. Base.Tests has the Boolean tests on numbers, Base.Lists lists
--   measured and indexed by native numbers, Base.Bytes C strings as the bytes before their NUL
--   (`str_eq` is `!strcmp`), Base.Fallible outcomes: a C function that returns 0 and leaves a
--   message in `err` returns `err e`, where `e` says which message.
-- - Graph: src/dstudio_task_graph.c. Graph.Types holds the enums and structs, Graph.Errors the
--   messages, Graph.Kinds and Graph.Transition the comparisons of enums by their values.
--   Graph.Names has the `…_name` and `…_parse` functions, Graph.Paths `dtg_id_valid` and
--   `dtg_relative_path_valid`, Graph.Dependencies `dtg_add_dependency`, Graph.Gates
--   `dtg_node_has_downstream_gate`, Graph.Order `dtg_topological_order`, Graph.Validate
--   `dtg_validate_graph`, and Graph.Transition the state transition authority. A node of the model is split in what a proposal fixes (`spec`) and what
--   the run changes; a pointer to a node is its index.
-- - Policy: src/dstudio_task_policy.c. Policy has the registry and `dtg_policy_validate`,
--   Policy.Actions `dtg_native_action_policy`, Policy.Digest `dtg_fnv1a64_bytes`.
-- - Store: src/dstudio_task_store.c. Store.Types has the event log and what the disk answers to a
--   call, Store `dtg_append_event_locked`, `dtg_store_graph_event` and `dtg_store_node_event`,
--   Store.Replay `dtg_event_apply_line` and `dtg_replay_events`, Store.Registry
--   `dtg_registry_find` and `dtg_registry_allocate`. A line of the log stands for the
--   fields that it spells. A disk says whether the lock is free, what the clock shows, how the
--   append ends (whole, torn, not at all), by how many bytes it lets the file grow, and whether the
--   snapshot is written; replay refuses a file over the source's 32 MiB.
-- - Scheduler: src/dstudio_task_scheduler.c. Scheduler has `dtg_scheduler_set_node` and the loops,
--   Scheduler.Ready `dtg_scheduler_recompute_ready` and `dtg_scheduler_next_ready`,
--   Scheduler.Cancel `dtg_scheduler_cancel` and `dtg_scheduler_process_cancelling`,
--   Scheduler.Finalize `dtg_scheduler_finalize_graph`, Scheduler.Run `dtg_scheduler_dispatch` and
--   `dtg_scheduler_finish_node`, Scheduler.Tick `dtg_scheduler_tick`, and Scheduler.Commands the
--   other commands. Scheduler.Executor is what it asks of src/dstudio_task_executor.c,
--   Scheduler.History a sequence of commands and ticks, and Scheduler.Turns one over all the runtimes
--   in use. Scheduler.Healthy is about disks on which
--   every call succeeds. Scheduler.Kept carries a relation between graphs from the store calls, the
--   executor and a dispatch over to the whole scheduler, on disks that answer anything;
--   Scheduler.Walks does so for accepted transitions, Scheduler.Limits for the limits on work.
-- - Executor: src/dstudio_task_executor.c. Executor.Available has `dtg_executor_can_dispatch` and
--   `dtg_executor_graph_is_available`, Executor.Poll `dtg_executor_poll`, Executor.Watchdog
--   `dtg_watchdog_observe_event_line`. What it learns from processes and files is a record.
-- - Steering: src/dstudio_steering.c, the texts that a user sends while a turn runs. Steering has
--   `api_steer`, `api_steer_status`, `api_steer_pull` and `steer_prepare`, Steering.Types the queue
--   of inputs, Steering.Queue its invariant, which Steering.Kept proves kept; Steering.Histories
--   calls in any order, Steering.Transcript what the transcript gets from them, Steering.Refused
--   what a refused call leaves, and Steering.Drained a runtime that pulls until nothing is left.
-- - Json: extension/remote/dstudio_json_tokens.h, the grammar check of JSON texts. Json has
--   `dtg_json_validate_complete` and the `dtg_json_syntax_…` functions, Json.Tree the texts that it
--   is to accept, Json.Sound, Json.Complete and Json.Halts what the proofs that it does stand on.
--   Json.Strings has `dtg_json_token_string` and, from src/dstudio.c, `json_dyn_put_escaped`.
-- - Patch: src/dstudio_unified_patch.c, the patches of native runtimes. Patch has
--   `unified_candidate` and `patch_apply_unified`, Patch.Hunks the functions that read a hunk;
--   Patch.Heads and Patch.Lines prove what these read, Patch.Places where a hunk fits,
--   Patch.Applied what comes of a patch, and Patch.Agreed of a set of patches.
-- - Examples: sample graphs, and the theorems at concrete inputs.
--
-- A graph is parsed from a proposal, checked by `dtg_policy_validate` (which calls
-- `dtg_validate_graph`), and run by the scheduler, which changes it through the store calls only;
-- these append an event to the log and then go through the transition authority.
--
-- Bounds and fuel: the queues of `dtg_topological_order` and `dtg_node_has_downstream_gate` are
-- loops on fuel. The fuel is the number of nodes; a node enters either queue at most once, so it is
-- enough, and the theorems on the two functions are equivalences that a loop which stopped early
-- would not satisfy. The loop of `dtg_relative_path_valid` has the length of the path as fuel and
-- consumes a byte each round. Hashes are numbers below 2 ^ 64. Other C integers (counts, sizes,
-- milliseconds) are natural numbers: the parser bounds them far below their types' limits.
--
-- The fuel of the JSON grammar check is one more than twice the bytes: a value uses one unit, a round
-- of a loop another, and each takes a byte; Json.Halts.Fuel proves that it is enough on every text.
--
-- The loop over the lines of a hunk has as fuel the lines that its range asks for, of which each round
-- takes one at least; the loop over hunks counts down the 512 that the source allows.
--
-- The budget of 32 dispatches in a tick is the source's.
--
-- Not modelled: the start of attempts and their files, the table of operations, the HTTP API,
-- creation and cold load of graphs, memory allocation and its failures, the length of messages, the
-- token table of JSON and the reading and printing of graphs by it, and the rest of DStudio (the
-- HTTP server, the window, model engines and their patches, document, media and web tools, the
-- design and analysis extensions), which is I/O, glue or code of other projects.
pub mod Base
pub mod Graph
pub mod Policy
pub mod Store
pub mod Scheduler
pub mod Executor
pub mod Steering
pub mod Json
pub mod Patch
pub mod Examples
