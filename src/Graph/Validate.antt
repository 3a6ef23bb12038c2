-- ===== src/Graph/Validate.antt =====
-- `dtg_find_node`, `dtg_capability_allowed` and `dtg_validate_graph` of src/dstudio_task_graph.c.
pub mod Header
pub mod Ids
pub mod Nodes
pub mod Safe
pub mod Exact
use dstudio.Base.{
  ℕ, zero, suc, Bool, true, false, not, ◌&&◌, ◌||◌, List, [], ◌∷◌, Option, some, none, Str, codes,
  str_eq, has_prefix, is_empty, if◌then◌else◌, ◌==◌, ltb, length, any, Outcome, ok, err, refuse,
}
use dstudio.Base.Fallible.{◌>>◌}
use dstudio.Graph.Types.{NodeKind, Mutation, Dependency, Node, Graph}
use dstudio.Graph.Errors.{
  GraphError, unknown_schema_version, node_or_edge_limits, parallel_llm_nodes, unknown_policy,
  unknown_executor_mode, synthetic_restricted, native_restricted, duplicate_node_id,
  retry_not_idempotent, too_many_attempts, capability_outside_policy, output_escapes, self_edge,
  missing_dependency, writer_without_gate, side_effect_without_approval,
}
use dstudio.Graph.Kinds.{kind_eq, mutation_eq}
use dstudio.Graph.Paths.{relative_path_valid}
use dstudio.Graph.Gates.{has_downstream_gate}
use dstudio.Graph.Order.{topological_order, max_nodes}

abbrev pub schema_version_1 : ℕ
schema_version_1 = 1

abbrev pub max_edges : ℕ
max_edges = 1024

-- `dtg_find_node_const`: the first node with the id.
unfoldable pub find_node : List Node → Str → Option Node
find_node [] id = none
find_node (n ∷ ns) id = if str_eq n.id id then some n else find_node ns id

abbrev general_capabilities : List Str
general_capabilities =
    codes "filesystem.read"
    ∷ codes "filesystem.write"
    ∷ codes "git.read"
    ∷ codes "terminal"
    ∷ codes "network"
    ∷ codes "browser"
    ∷ codes "artifact.register"
    ∷ codes "test.run"
    ∷ []

unfoldable pub capability_allowed : Str → Str → Bool
capability_allowed policy capability =
    if str_eq policy (codes "test.synthetic.v1")
    then has_prefix capability (codes "synthetic.") || str_eq capability (codes "filesystem.read")
    else any (str_eq capability) general_capabilities

abbrev pub is_missing : Option Node → Bool
is_missing none = true
is_missing (some n) = false

-- The loop over the dependencies of node `id`.
unfoldable pub check_dependencies :
    List Node → Str → List Dependency → Outcome GraphError (Unit {0})
check_dependencies nodes id [] = ok tt
check_dependencies nodes id (d ∷ ds) = do
  refuse (str_eq d.node_id id) self_edge
  refuse (is_missing (find_node nodes d.node_id)) missing_dependency
  check_dependencies nodes id ds

-- An automatic retry of a node that is not idempotent is left to prompts with tool evidence.
abbrev pub unsafe_retry : Node → Bool
unsafe_retry n =
    n.automatic_retry
    && not n.idempotent
    && (not (str_eq n.action_name (codes "agent.prompt")) || not n.action_require_tool_result)

-- One round of the loop over the nodes: node `i`, and the nodes behind it.
unfoldable pub check_node : Graph → Bool → ℕ → Node → List Node → Outcome GraphError (Unit {0})
check_node g strict i n later = do
  refuse (any (λ m. str_eq n.id m.id) later) duplicate_node_id
  refuse (unsafe_retry n) retry_not_idempotent
  refuse (ltb g.max_attempts_per_node n.max_attempts) too_many_attempts
  refuse (any (λ c. not (capability_allowed g.policy c)) n.capabilities) capability_outside_policy
  refuse (any (λ o. not (relative_path_valid o.path)) n.outputs) output_escapes
  check_dependencies g.nodes n.id n.dependencies
  refuse
      (strict
        && mutation_eq n.mutation Mutation.workspace_write
        && not (has_downstream_gate g.nodes i))
      writer_without_gate

unfoldable pub check_nodes : Graph → Bool → ℕ → List Node → Outcome GraphError (Unit {0})
check_nodes g strict i [] = ok tt
check_nodes g strict i (n ∷ ns) = do check_node g strict i n ns; check_nodes g strict (suc i) ns

abbrev pub has_approval : List Node → Bool
has_approval nodes = any (λ n. kind_eq n.kind NodeKind.approval) nodes

abbrev pub is_external : Node → Bool
is_external n = mutation_eq n.mutation Mutation.external_side_effect

-- The checks before the loop over the nodes.
unfoldable pub check_header : Graph → Outcome GraphError (Unit {0})
check_header g = do
  refuse (not (g.schema_version == schema_version_1)) unknown_schema_version
  refuse (length g.nodes == 0 || ltb max_nodes (length g.nodes) || ltb max_edges g.edge_count)
      node_or_edge_limits
  refuse (not (g.max_parallel_llm_nodes == 1)) parallel_llm_nodes
  refuse
      (not (str_eq g.policy (codes "agent.general.v1"))
        && not (str_eq g.policy (codes "plan.v1"))
        && not (str_eq g.policy (codes "test.synthetic.v1")))
      unknown_policy
  refuse
      (not (is_empty g.executor_mode)
        && not (str_eq g.executor_mode (codes "synthetic"))
        && not (str_eq g.executor_mode (codes "native")))
      unknown_executor_mode
  refuse
      (str_eq g.executor_mode (codes "synthetic")
        && not (str_eq g.policy (codes "test.synthetic.v1")))
      synthetic_restricted
  refuse
      (str_eq g.executor_mode (codes "native") && not (str_eq g.policy (codes "agent.general.v1")))
      native_restricted

unfoldable pub validate_graph : Graph → Bool → Outcome GraphError (Unit {0})
validate_graph g strict = do
  check_header g
  check_nodes g strict 0 g.nodes
  refuse
      (any (λ n. is_external n && (not g.approval_required || not (has_approval g.nodes))) g.nodes)
      side_effect_without_approval
  elim (topological_order g) [ ok order ↦ ok tt | err e ↦ err e ]
