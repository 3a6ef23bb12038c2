-- ===== src/Policy/Actions.antt =====
-- `dtg_native_action_policy` of src/dstudio_task_policy.c: what a native action may be, one
-- function for each action.
use dstudio.Base.{
  ℕ, Bool, true, false, not, ◌&&◌, ◌||◌, List, [], ◌∷◌, Option, some, none, Str, codes, str_eq,
  has_prefix, is_empty, if◌then◌else◌, ◌==◌, ltb, length, any, Outcome, ok, err, refuse,
}
use dstudio.Base.Fallible.{◌>>◌}
use dstudio.Graph.Types.{NodeKind, Mutation, Dependency, Node, Graph}
use dstudio.Graph.Errors.{
  GraphError, no_bounded_action, goal_without_evidence, prompt_without_text,
  evidence_without_marker, read_only_write_capability, writer_without_capability,
  read_only_capability, network_without_side_effect, external_without_approval, receipt_shape,
  receipt_source, read_shape, write_shape, write_control_storage, write_too_long, test_shape,
  assert_shape, outputs_shape, approval_shape, join_shape, action_not_registered,
}
use dstudio.Graph.Kinds.{kind_eq, mutation_eq}
use dstudio.Graph.Paths.{relative_path_valid}
use dstudio.Graph.Validate.{find_node}

unfoldable pub is_agent_action : Str → Bool
is_agent_action name = str_eq name (codes "agent.prompt") || str_eq name (codes "agent.goal")

unfoldable pub node_has_capability : Node → Str → Bool
node_has_capability n capability = any (λ c. str_eq c capability) n.capabilities

-- `capability_count == 1` and that one.
abbrev pub is_only : List Str → Str → Bool
is_only [] capability = false
is_only (c ∷ []) capability = str_eq c capability
is_only (c ∷ d ∷ cs) capability = false

unfoldable pub node_has_only_capability : Node → Str → Bool
node_has_only_capability n capability = is_only n.capabilities capability

-- `!text || !text[0]`
abbrev pub is_blank : Option Str → Bool
is_blank none = true
is_blank (some s) = is_empty s

abbrev pub is_none : Option Str → Bool
is_none none = true
is_none (some s) = false

abbrev has_mutation : Node → Mutation → Bool
has_mutation n m = mutation_eq n.mutation m

-- The loop over the capabilities of an agent action.
unfoldable pub check_capabilities : Node → List Str → Outcome GraphError (Unit {0})
check_capabilities n [] = ok tt
check_capabilities n (cap ∷ caps) = do
  refuse
      (has_mutation n Mutation.read_only
        && not (str_eq cap (codes "filesystem.read"))
        && not (str_eq cap (codes "git.read"))
        && not (str_eq cap (codes "artifact.register")))
      read_only_capability
  refuse
      (not (has_mutation n Mutation.external_side_effect)
        && (str_eq cap (codes "network") || str_eq cap (codes "browser")))
      network_without_side_effect
  check_capabilities n caps

unfoldable pub agent_policy : Graph → Node → Outcome GraphError (Unit {0})
agent_policy g n = do
  refuse
      (str_eq n.action_name (codes "agent.goal")
        && (not n.action_require_tool_result || n.automatic_retry))
      goal_without_evidence
  refuse (not (kind_eq n.kind NodeKind.agent_turn) || is_blank n.action_text) prompt_without_text
  refuse (n.action_require_tool_result && is_blank n.action_expect) evidence_without_marker
  refuse (has_mutation n Mutation.read_only && node_has_capability n (codes "filesystem.write"))
      read_only_write_capability
  refuse
      (has_mutation n Mutation.workspace_write
        && not (node_has_capability n (codes "filesystem.write")))
      writer_without_capability
  check_capabilities n n.capabilities
  refuse
      (has_mutation n Mutation.external_side_effect
        && (not g.approval_required
            || not (node_has_capability n (codes "network"))
              && not (node_has_capability n (codes "browser"))))
      external_without_approval

abbrev source_refused : Option Node → Bool
source_refused none = true
source_refused (some source) =
    not (is_agent_action source.action_name) || is_blank source.action_expect

abbrev receipt_source_refused : Graph → List Dependency → Bool
receipt_source_refused g [] = true
receipt_source_refused g (d ∷ ds) = source_refused (find_node g.nodes d.node_id)

abbrev pub not_receipt : Node → Bool
not_receipt n =
    not (kind_eq n.kind NodeKind.gate)
    || not (has_mutation n Mutation.read_only)
    || not (node_has_only_capability n (codes "filesystem.read"))
    || not (length n.dependencies == 1)

unfoldable pub receipt_policy : Graph → Node → Outcome GraphError (Unit {0})
receipt_policy g n = do
  refuse (not_receipt n) receipt_shape
  refuse (receipt_source_refused g n.dependencies) receipt_source

unfoldable pub read_policy : Node → Outcome GraphError (Unit {0})
read_policy n =
    refuse
      (not (kind_eq n.kind NodeKind.host_tool)
        || not (has_mutation n Mutation.read_only)
        || is_empty n.action_path
        || not (relative_path_valid n.action_path)
        || not (node_has_only_capability n (codes "filesystem.read")))
      read_shape

abbrev pub text_length : Option Str → ℕ
text_length none = 0
text_length (some s) = length s

abbrev pub not_write : Node → Bool
not_write n =
    not (kind_eq n.kind NodeKind.host_tool)
    || not (has_mutation n Mutation.workspace_write)
    || is_empty n.action_path
    || not (relative_path_valid n.action_path)
    || is_none n.action_text
    || not (node_has_only_capability n (codes "filesystem.write"))

abbrev pub in_control_storage : Str → Bool
in_control_storage path = has_prefix path (codes ".dstudio/") || str_eq path (codes ".dstudio")

unfoldable pub write_policy : Node → Outcome GraphError (Unit {0})
write_policy n = do
  refuse (not_write n) write_shape
  refuse (in_control_storage n.action_path) write_control_storage
  refuse (ltb n.action_max_bytes (text_length n.action_text)) write_too_long

abbrev argv_missing : List Str → Bool
argv_missing [] = true
argv_missing (a ∷ as') = is_empty a

unfoldable pub test_policy : Node → Outcome GraphError (Unit {0})
test_policy n =
    refuse
      (not (kind_eq n.kind NodeKind.host_tool)
        || not (has_mutation n Mutation.workspace_write)
        || argv_missing n.action_argv
        || not (node_has_only_capability n (codes "test.run")))
      test_shape

unfoldable pub assert_policy : Node → Outcome GraphError (Unit {0})
assert_policy n =
    refuse
      (not (kind_eq n.kind NodeKind.gate)
        || not (has_mutation n Mutation.read_only)
        || is_empty n.action_path
        || not (relative_path_valid n.action_path)
        || not (node_has_only_capability n (codes "filesystem.read")))
      assert_shape

unfoldable pub outputs_policy : Node → Outcome GraphError (Unit {0})
outputs_policy n =
    refuse
      (not (kind_eq n.kind NodeKind.gate)
        || not (has_mutation n Mutation.read_only)
        || not (node_has_only_capability n (codes "filesystem.read")))
      outputs_shape

abbrev has_capabilities : Node → Bool
has_capabilities n = not (length n.capabilities == 0)

unfoldable pub approval_policy : Node → Outcome GraphError (Unit {0})
approval_policy n =
    refuse
      (not (kind_eq n.kind NodeKind.approval)
        || not (has_mutation n Mutation.read_only)
        || has_capabilities n)
      approval_shape

unfoldable pub join_policy : Node → Outcome GraphError (Unit {0})
join_policy n =
    refuse
      (not (kind_eq n.kind NodeKind.join)
        || not (has_mutation n Mutation.read_only)
        || has_capabilities n)
      join_shape

unfoldable pub native_action_policy : Graph → Node → Outcome GraphError (Unit {0})
native_action_policy g n =
    if is_empty n.action_name
    then err no_bounded_action
    else if is_agent_action n.action_name
    then agent_policy g n
    else if str_eq n.action_name (codes "agent.receipt.verify")
    then receipt_policy g n
    else if str_eq n.action_name (codes "workspace.read")
    then read_policy n
    else if str_eq n.action_name (codes "workspace.write")
    then write_policy n
    else if str_eq n.action_name (codes "test.run")
    then test_policy n
    else if str_eq n.action_name (codes "workspace.assert")
    then assert_policy n
    else if str_eq n.action_name (codes "outputs.verify")
    then outputs_policy n
    else if str_eq n.action_name (codes "approval.wait")
    then approval_policy n
    else if str_eq n.action_name (codes "join.all")
    then join_policy n
    else err action_not_registered
