-- ===== src/Policy.antt =====
-- The built-in policy registry: src/dstudio_task_policy.c.
pub mod Actions
pub mod Shapes
pub mod Confined
pub mod Storage
pub mod Accepted
pub mod Digest
use dstudio.Base.{
  ℕ, Bool, true, false, not, ◌&&◌, ◌||◌, List, [], ◌∷◌, Option, some, none, Str, codes, str_eq,
  if◌then◌else◌, Outcome, ok, err, refuse,
}
use dstudio.Base.Fallible.{◌>>◌}
use dstudio.Graph.Types.{NodeKind, Mutation, NodeState, Node, Graph}
use dstudio.Graph.Errors.{
  GraphError, policy_not_registered, no_executor, side_effects_forbidden, plan_not_draft,
}
use dstudio.Graph.Kinds.{kind_eq, mutation_eq}
use dstudio.Graph.Transition.{node_state_eq}
use dstudio.Graph.Validate.{validate_graph}
use dstudio.Policy.Actions.{native_action_policy}

pub record Descriptor : Type 0 where
  pub name : Str
  pub strict_by_default : Bool
  pub allow_external_side_effects : Bool

abbrev pub policies : List Descriptor
policies =
    record {
      name = codes "agent.general.v1";
      strict_by_default = true;
      allow_external_side_effects = true;
    }
    ∷ record {
      name = codes "plan.v1";
      strict_by_default = true;
      allow_external_side_effects = false;
    }
    ∷ record {
      name = codes "test.synthetic.v1";
      strict_by_default = false;
      allow_external_side_effects = false;
    }
    ∷ []

unfoldable pub find_in : List Descriptor → Str → Option Descriptor
find_in [] name = none
find_in (p ∷ ps) name = if str_eq p.name name then some p else find_in ps name

unfoldable pub policy_find : Str → Option Descriptor
unfolding find_in
policy_find name = find_in policies name

unfoldable pub executor_kind_registered : NodeKind → Bool
unfolding kind_eq
executor_kind_registered kind =
    kind_eq kind NodeKind.agent_turn
    || kind_eq kind NodeKind.host_tool
    || kind_eq kind NodeKind.gate
    || kind_eq kind NodeKind.approval
    || kind_eq kind NodeKind.join

unfoldable pub check_policy_node : Graph → Descriptor → Node → Outcome GraphError (Unit {0})
check_policy_node g policy n = do
  refuse (not (executor_kind_registered n.kind)) no_executor
  refuse
      (not policy.allow_external_side_effects
        && mutation_eq n.mutation Mutation.external_side_effect)
      side_effects_forbidden
  refuse (str_eq policy.name (codes "plan.v1") && not (node_state_eq n.state NodeState.draft))
      plan_not_draft
  if str_eq g.executor_mode (codes "native") then native_action_policy g n else ok tt

unfoldable pub check_policy_nodes : Graph → Descriptor → List Node → Outcome GraphError (Unit {0})
check_policy_nodes g policy [] = ok tt
check_policy_nodes g policy (n ∷ ns) = do
  check_policy_node g policy n
  check_policy_nodes g policy ns

-- `dtg_policy_validate` behind the lookup of the policy.
unfoldable pub validate_under : Graph → Bool → Option Descriptor → Outcome GraphError (Unit {0})
validate_under g requested_strict none = err policy_not_registered
validate_under g requested_strict (some policy) =
    validate_graph g (requested_strict || policy.strict_by_default)
    >> check_policy_nodes g policy g.nodes

unfoldable pub policy_validate : Graph → Bool → Outcome GraphError (Unit {0})
policy_validate g requested_strict = validate_under g requested_strict (policy_find g.policy)
