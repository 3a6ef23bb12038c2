-- ===== src/Executor.antt =====
-- Parts of src/dstudio_task_executor.c: which graphs may run, what a poll finds, and the watchdog
-- over an agent's turn.
pub mod Available
pub mod Poll
pub mod Watchdog
