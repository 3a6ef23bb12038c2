-- ===== src/Graph/Kinds.antt =====
-- Comparisons of the enums of a node: an enum is an int.
use dstudio.Base.{ℕ, Bool, ◌==◌}
use dstudio.Graph.Types.{NodeKind, Mutation}

unfoldable pub node_kind_value : NodeKind → ℕ
node_kind_value NodeKind.agent_turn = 0
node_kind_value NodeKind.host_tool = 1
node_kind_value NodeKind.gate = 2
node_kind_value NodeKind.approval = 3
node_kind_value NodeKind.join = 4
node_kind_value NodeKind.kind_invalid = 5

unfoldable pub mutation_value : Mutation → ℕ
mutation_value Mutation.read_only = 0
mutation_value Mutation.artifact_only = 1
mutation_value Mutation.workspace_write = 2
mutation_value Mutation.external_side_effect = 3
mutation_value Mutation.mutation_invalid = 4

unfoldable pub kind_eq : NodeKind → NodeKind → Bool
unfolding node_kind_value
kind_eq a b = node_kind_value a == node_kind_value b

unfoldable pub mutation_eq : Mutation → Mutation → Bool
unfolding mutation_value
mutation_eq a b = mutation_value a == mutation_value b
