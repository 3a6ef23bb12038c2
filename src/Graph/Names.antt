-- ===== src/Graph/Names.antt =====
-- The spelling of kinds, mutation classes and states ("Model parsing / names" in
-- src/dstudio_task_graph.c).
pub mod RoundTrip
use dstudio.Base.{
  ℕ, ◌≡◌, Bool, List, [], ◌∷◌, ◌||◌, Str, codes, str_eq, is_empty, if◌then◌else◌, ◌==◌,
}
use dstudio.Graph.Types.{NodeKind, GraphState, NodeState, Mutation}

unfoldable pub node_kind_name : NodeKind → Str
node_kind_name NodeKind.agent_turn = codes "agent_turn"
node_kind_name NodeKind.host_tool = codes "host_tool"
node_kind_name NodeKind.gate = codes "gate"
node_kind_name NodeKind.approval = codes "approval"
node_kind_name NodeKind.join = codes "join"
node_kind_name NodeKind.kind_invalid = codes "invalid"

unfoldable pub node_kind_parse : Str → NodeKind
node_kind_parse s =
    if str_eq s (codes "agent_turn")
    then NodeKind.agent_turn
    else if str_eq s (codes "host_tool")
    then NodeKind.host_tool
    else if str_eq s (codes "gate")
    then NodeKind.gate
    else if str_eq s (codes "approval")
    then NodeKind.approval
    else if str_eq s (codes "join")
    then NodeKind.join
    else NodeKind.kind_invalid

unfoldable pub mutation_name : Mutation → Str
mutation_name Mutation.read_only = codes "read_only"
mutation_name Mutation.artifact_only = codes "artifact_only"
mutation_name Mutation.workspace_write = codes "workspace_write"
mutation_name Mutation.external_side_effect = codes "external_side_effect"
mutation_name Mutation.mutation_invalid = codes "invalid"

-- An empty text is the default, `read_only`.
unfoldable pub mutation_parse : Str → Mutation
mutation_parse s =
    if is_empty s || str_eq s (codes "read_only")
    then Mutation.read_only
    else if str_eq s (codes "artifact_only")
    then Mutation.artifact_only
    else if str_eq s (codes "workspace_write")
    then Mutation.workspace_write
    else if str_eq s (codes "external_side_effect")
    then Mutation.external_side_effect
    else Mutation.mutation_invalid

unfoldable pub node_state_name : NodeState → Str
node_state_name NodeState.draft = codes "draft"
node_state_name NodeState.pending = codes "pending"
node_state_name NodeState.ready = codes "ready"
node_state_name NodeState.leased = codes "leased"
node_state_name NodeState.running = codes "running"
node_state_name NodeState.waiting_approval = codes "waiting_approval"
node_state_name NodeState.paused = codes "paused"
node_state_name NodeState.cancelling = codes "cancelling"
node_state_name NodeState.interrupted = codes "interrupted"
node_state_name NodeState.succeeded = codes "succeeded"
node_state_name NodeState.failed = codes "failed"
node_state_name NodeState.cancelled = codes "cancelled"
node_state_name NodeState.blocked = codes "blocked"
node_state_name NodeState.skipped = codes "skipped"
node_state_name NodeState.state_invalid = codes "invalid"

unfoldable pub graph_state_name : GraphState → Str
graph_state_name GraphState.draft = codes "draft"
graph_state_name GraphState.validated = codes "validated"
graph_state_name GraphState.ready = codes "ready"
graph_state_name GraphState.running = codes "running"
graph_state_name GraphState.pausing = codes "pausing"
graph_state_name GraphState.paused = codes "paused"
graph_state_name GraphState.waiting_approval = codes "waiting_approval"
graph_state_name GraphState.needs_input = codes "needs_input"
graph_state_name GraphState.succeeded = codes "succeeded"
graph_state_name GraphState.failed = codes "failed"
graph_state_name GraphState.cancelling = codes "cancelling"
graph_state_name GraphState.cancelled = codes "cancelled"
graph_state_name GraphState.corrupt = codes "corrupt"
graph_state_name GraphState.state_invalid = codes "invalid"

-- The loop of the two `…_state_parse` functions over the values below INVALID.
unfoldable pub first_named {ℓ} : {A : Type ℓ} → (A → Str) → A → Str → List A → A
first_named name invalid s [] = invalid
first_named name invalid s (v ∷ vs) = if str_eq s (name v) then v else first_named name invalid s vs

abbrev node_states : List NodeState
node_states =
    NodeState.draft ∷ NodeState.pending ∷ NodeState.ready ∷ NodeState.leased ∷ NodeState.running
    ∷ NodeState.waiting_approval ∷ NodeState.paused ∷ NodeState.cancelling ∷ NodeState.interrupted
    ∷ NodeState.succeeded ∷ NodeState.failed ∷ NodeState.cancelled ∷ NodeState.blocked
    ∷ NodeState.skipped ∷ []

abbrev graph_states : List GraphState
graph_states =
    GraphState.draft ∷ GraphState.validated ∷ GraphState.ready ∷ GraphState.running
    ∷ GraphState.pausing ∷ GraphState.paused ∷ GraphState.waiting_approval ∷ GraphState.needs_input
    ∷ GraphState.succeeded ∷ GraphState.failed ∷ GraphState.cancelling ∷ GraphState.cancelled
    ∷ GraphState.corrupt ∷ []

unfoldable pub node_state_parse : Str → NodeState
node_state_parse s = first_named node_state_name NodeState.state_invalid s node_states

unfoldable pub graph_state_parse : Str → GraphState
graph_state_parse s = first_named graph_state_name GraphState.state_invalid s graph_states
