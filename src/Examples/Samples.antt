-- ===== src/Examples/Samples.antt =====
-- A small task graph: a native writer, and a gate that checks what it wrote.
use dstudio.Base.{
  ◌≡◌, refl, true, false, List, [], ◌∷◌, some, none, Str, codes, str_eq, has_prefix, ok,
}
use dstudio.Graph.Types.{
  NodeKind, Mutation, dep_succeeded, NodeState, GraphState, Dependency, pos, Action, NodeSpec, Node,
  Graph,
}
use dstudio.Graph.Transition.{node_state_eq}
use dstudio.Graph.Order.{emit, topological_order}
use dstudio.Graph.Paths.{
  relative_path_valid, is_dots, component_bytes, skip_separators, after_component,
}
use dstudio.Graph.Gates.{has_downstream_gate, gate_loop, scan}
use dstudio.Graph.Validate.{
  find_node, capability_allowed, check_dependencies, check_node, check_nodes, check_header,
  validate_graph,
}
use dstudio.Graph.Kinds.{kind_eq, mutation_eq}
use dstudio.Policy.{
  policy_find, executor_kind_registered, check_policy_node, check_policy_nodes, validate_under,
  policy_validate,
}
use dstudio.Policy.Actions.{
  is_agent_action, node_has_only_capability, native_action_policy, write_policy, assert_policy,
}

abbrev pub sample_action : Str → Str → Action
sample_action name path = record {
  action_name = name;
  action_path = path;
  action_text = some (codes "done");
  action_display = none;
  action_expect = none;
  action_require_tool_result = false;
  action_argv = [];
  action_max_bytes = 1048576;
}

abbrev pub fresh_node : NodeSpec → Node
fresh_node spec = record {
  spec = spec;
  state = NodeState.draft;
  attempts_started = 0;
  active_attempt_id = [];
  operation_task_id = 0;
  ready_ms = 0;
  started_ms = 0;
  finished_ms = 0;
  synthetic_due_ms = 0;
  native_pid = 0;
  native_done = false;
  native_success = false;
  native_cancel_requested = false;
  watchdog_tool_calls = 0;
  watchdog_tripped = false;
  native_message = [];
}

abbrev pub sample_spec : Str → NodeKind → Mutation → List Dependency → List Str → Action → NodeSpec
sample_spec id kind mutation dependencies capabilities action = record {
  id = id;
  title = id;
  description = [];
  kind = kind;
  mutation = mutation;
  dependencies = dependencies;
  outputs = [];
  capabilities = capabilities;
  max_attempts = 1;
  automatic_retry = false;
  idempotent = true;
  optional = false;
  priority = pos 50;
  timeout_ms = 900000;
  synthetic_delay_ms = 0;
  synthetic_should_fail = false;
  action = action;
}

abbrev pub writer : Node
writer = fresh_node (
    sample_spec (codes "write") NodeKind.host_tool Mutation.workspace_write []
      (codes "filesystem.write" ∷ []) (sample_action (codes "workspace.write") (codes "out/a.txt")))

abbrev pub checker : Node
checker = fresh_node (
    sample_spec (codes "check") NodeKind.gate Mutation.read_only
      (record { node_id = codes "write"; condition = dep_succeeded } ∷ [])
      (codes "filesystem.read" ∷ []) (sample_action (codes "workspace.assert") (codes "out/a.txt")))

abbrev pub sample_graph : List Node → Graph
sample_graph nodes = record {
  spec = record {
    id = codes "tg_1";
    revision = 1;
    schema_version = 1;
    policy = codes "agent.general.v1";
    mode = codes "agent";
    executor_mode = codes "native";
    goal = codes "write a file";
    workspace = [];
    approval_required = false;
    max_parallel_host_nodes = 3;
    max_parallel_llm_nodes = 1;
    max_attempts_per_node = 3;
    edge_count = 1;
  };
  state = GraphState.draft;
  approved = false;
  nodes = nodes;
  last_event_seq = 0;
  created_ms = 0;
  updated_ms = 0;
  started_ms = 0;
  completed_ms = 0;
  error = [];
}

-- The gate stands before the writer in the list, and behind it in the order.
abbrev pub sample : Graph
sample = sample_graph (checker ∷ writer ∷ [])

-- What a run of the validation computes with.
unfoldable pub program : Unit {0}
unfolding str_eq has_prefix is_dots component_bytes skip_separators after_component scan emit
    topological_order relative_path_valid has_downstream_gate gate_loop find_node capability_allowed
    check_dependencies check_node check_nodes check_header validate_graph kind_eq mutation_eq
    node_state_eq policy_find executor_kind_registered check_policy_node check_policy_nodes
    validate_under policy_validate is_agent_action node_has_only_capability native_action_policy
    write_policy assert_policy
program = tt

pub sample_sorted : topological_order sample ≡ ok (1 ∷ 0 ∷ [])
unfolding program
sample_sorted = refl

pub sample_valid : validate_graph sample true ≡ ok tt
unfolding program
sample_valid = refl

pub sample_admitted : policy_validate sample false ≡ ok tt
unfolding program
sample_admitted = refl
