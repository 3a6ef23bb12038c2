-- ===== src/Graph/Errors.antt =====
-- The messages with which the checks of a graph fail, one constructor for each `snprintf` (the ids
-- that a message quotes are left out). `unexplained` is a failure that leaves no message.
pub data GraphError : Type 0 where
  unexplained : GraphError
  unknown_schema_version node_or_edge_limits parallel_llm_nodes unknown_policy : GraphError
  unknown_executor_mode synthetic_restricted native_restricted : GraphError
  duplicate_node_id retry_not_idempotent too_many_attempts capability_outside_policy : GraphError
  output_escapes self_edge missing_dependency writer_without_gate : GraphError
  side_effect_without_approval dependency_cycle : GraphError
  policy_not_registered no_executor side_effects_forbidden plan_not_draft : GraphError
  no_bounded_action goal_without_evidence prompt_without_text evidence_without_marker : GraphError
  read_only_write_capability writer_without_capability read_only_capability : GraphError
  network_without_side_effect external_without_approval receipt_shape receipt_source : GraphError
  read_shape write_shape write_control_storage write_too_long test_shape assert_shape : GraphError
  outputs_shape approval_shape join_shape action_not_registered : GraphError
