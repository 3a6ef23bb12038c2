-- ===== src/Executor/Poll/Evidence.antt =====
-- What a successful poll rests on.
use dstudio.Base.{◌≡◌, ◌⊎◌, ◌<◌, true, false, Str}
use dstudio.Graph.Types.{Node}
use dstudio.Executor.Poll.{Turn, exited, met}

-- The process of the node has exited with status 0.
abbrev pub HasExited : Turn → Node → Type 0
HasExited t n = (0 < n.native_pid) × (message : Str) × (t.waited ≡ exited true message)

-- The agent's turn ended with its transcript written, no watchdog alarm, a live runtime, a completed
-- receipt, and its contract met.
abbrev pub HasDelivered : Turn → Node → Type 0
HasDelivered t n =
    (t.owner ≡ true)
    × (t.agent_working ≡ false)
    × (t.transcript_written ≡ true)
    × (n.watchdog_tripped ≡ false)
    × (t.live ≡ true)
    × (t.turn_completed ≡ true)
    × (t.contract n ≡ met)

module _ (t : Turn) (n : Node) (fresh : n.native_done ≡ false) where
  abbrev Evidence : Type 0
  Evidence = (n.native_cancel_requested ≡ false) × (HasDelivered t n ⊎ HasExited t n)
