-- ===== src/Graph/Transition/Times.antt =====
-- The time stamps that go with the states of a node.
use dstudio.Base.{ℕ, ◌≡◌, ◌<◌, Bool, true, false, arith}
use dstudio.Graph.Types.{NodeState, Node}
use dstudio.Graph.Transition.{node_terminal, node_transition_allowed, node_enter}

-- The states of a node that has been ready since it was last pending.
abbrev pub was_ready : NodeState → Bool
was_ready NodeState.ready = true
was_ready NodeState.leased = true
was_ready NodeState.running = true
was_ready NodeState.waiting_approval = true
was_ready NodeState.paused = true
was_ready NodeState.cancelling = true
was_ready NodeState.interrupted = true
was_ready NodeState.succeeded = true
was_ready NodeState.failed = true
was_ready _ = false

-- Times are positive, so a stamp of 0 means "not yet".
pub record IsTimed (n : Node) : Type 0 where
  pub ended : node_terminal n.state ≡ true → 0 < n.finished_ms
  pub live : node_terminal n.state ≡ false → n.finished_ms ≡ 0
  pub queued : was_ready n.state ≡ true → 0 < n.ready_ms
  pub active : n.state ≡ NodeState.running → 0 < n.started_ms

-- An accepted transition at a positive time keeps the stamps in step with the state: a terminal
-- node has a finish time and no other node has one, a node that was ready has a ready time, and a
-- running node has a start time.
pub node_enter-IsTimed :
    (n : Node) (to : NodeState) (now : ℕ)
    → 0 < now
    → node_transition_allowed n.state to ≡ true
    → IsTimed n
    → IsTimed (node_enter to now n)
unfolding node_enter node_transition_allowed
node_enter-IsTimed n to now positive allowed t = ground arith
