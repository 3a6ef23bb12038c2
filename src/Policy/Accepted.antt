-- ===== src/Policy/Accepted.antt =====
-- What `dtg_policy_validate` accepts.
use dstudio.Base.{
  ◌≡◌, ◌↔◌, inl, inr, refl, Bool, true, false, not, ◌&&◌, ◌||◌, List, [], ◌∷◌, Option, some, none,
  codes, str_eq, str_eq_self, eq_of_str_eq, All, arith, ok, refuse, refuse-eq-ok, >>-eq-ok,
  err-ne-ok, Bool-cases,
}
use dstudio.Graph.Types.{Mutation, NodeState, Node, Graph}
use dstudio.Graph.Errors.{policy_not_registered}
use dstudio.Graph.Kinds.{mutation_eq}
use dstudio.Policy.Shapes.{mutation_eq_sound}
use dstudio.Graph.Transition.{node_state_eq}
use dstudio.Graph.Transition.Walks.{node_state_eq_sound}
use dstudio.Graph.Validate.{validate_graph}
use dstudio.Graph.Validate.Exact.{validate_graph_iff}
use dstudio.Graph.Validate.Safe.{IsWellFormed}
use dstudio.Policy.{
  Descriptor, policy_find, executor_kind_registered, check_policy_node, check_policy_nodes,
  validate_under, policy_validate,
}
use dstudio.Policy.Actions.{native_action_policy}

-- What the registry asks of one node under a policy.
pub record NodeIsAdmitted (g : Graph) (policy : Descriptor) (n : Node) : Type 0 where
  pub registered : executor_kind_registered n.kind ≡ true
  pub external :
      n.mutation ≡ Mutation.external_side_effect → policy.allow_external_side_effects ≡ true
  pub plan_draft : policy.name ≡ codes "plan.v1" → n.state ≡ NodeState.draft
  pub native : g.executor_mode ≡ codes "native" → native_action_policy g n ≡ ok tt

check_policy_node_sound :
    (g : Graph) (policy : Descriptor) (n : Node)
    → check_policy_node g policy n ≡ ok tt
    → NodeIsAdmitted g policy n
unfolding check_policy_node
check_policy_node_sound g policy n h =
    let (h₁, k₁) = >>-eq-ok (refuse (not (executor_kind_registered n.kind)) _) _ h in
    let (h₂, k₂) =
      >>-eq-ok
        (refuse
          (not policy.allow_external_side_effects
            && mutation_eq n.mutation Mutation.external_side_effect)
          _)
        _ k₁ in
    let (h₃, k₃) =
      >>-eq-ok
        (refuse
          (str_eq policy.name (codes "plan.v1") && not (node_state_eq n.state NodeState.draft)) _)
        _ k₂ in
    let registered = refuse-eq-ok _ _ h₁ in
    let effects = refuse-eq-ok _ _ h₂ in
    let drafts = refuse-eq-ok _ _ h₃ in
    record {
      registered = ground arith;
      external = λ e.
          let acts : mutation_eq n.mutation Mutation.external_side_effect ≡ true =
            unfold mutation_eq in rw e in
          ground arith;
      plan_draft = λ e.
          let plan : str_eq policy.name (codes "plan.v1") ≡ true = rw e (str_eq_self _) in
          node_state_eq_sound n.state NodeState.draft (ground arith);
      native = λ e.
          let mode : str_eq g.executor_mode (codes "native") ≡ true = rw e (str_eq_self _) in
          rw mode at k₃;
    }

check_policy_nodes_sound :
    (g : Graph) (policy : Descriptor) (ns : List Node)
    → check_policy_nodes g policy ns ≡ ok tt
    → All (NodeIsAdmitted g policy) ns
unfolding check_policy_nodes
check_policy_nodes_sound g policy [] h = tt
check_policy_nodes_sound g policy (n ∷ ns) h =
    let (a, rest) = >>-eq-ok (check_policy_node g policy n) _ h in
    (check_policy_node_sound g policy n a, check_policy_nodes_sound g policy ns rest)

check_policy_node_complete :
    (g : Graph) (policy : Descriptor) (n : Node)
    → NodeIsAdmitted g policy n
    → check_policy_node g policy n ≡ ok tt
unfolding check_policy_node
check_policy_node_complete g policy n a =
    let no_effect : (not policy.allow_external_side_effects
          && mutation_eq n.mutation Mutation.external_side_effect)
        ≡ false =
      effects (mutation_eq n.mutation Mutation.external_side_effect) refl in
    let all_draft : (str_eq policy.name (codes "plan.v1")
          && not (node_state_eq n.state NodeState.draft))
        ≡ false =
      drafts (str_eq policy.name (codes "plan.v1")) refl in
    rw (a.registered, no_effect, all_draft)
      (elim (Bool-cases (str_eq g.executor_mode (codes "native"))) [
        | inl native ↦ rw native (a.native (eq_of_str_eq g.executor_mode _ native))
        | inr other ↦ rw other
      ])
  where
    effects :
        (b : Bool)
        → mutation_eq n.mutation Mutation.external_side_effect ≡ b
        → (not policy.allow_external_side_effects
            && mutation_eq n.mutation Mutation.external_side_effect)
          ≡ false
    effects false h = rw h (ground arith)
    effects true h =
        let allowed = a.external (mutation_eq_sound n.mutation Mutation.external_side_effect h) in
        rw allowed

    drafts :
        (b : Bool)
        → str_eq policy.name (codes "plan.v1") ≡ b
        → (str_eq policy.name (codes "plan.v1") && not (node_state_eq n.state NodeState.draft))
          ≡ false
    drafts false h = rw h
    drafts true h =
        let draft = a.plan_draft (eq_of_str_eq policy.name _ h) in
        rw (h, draft) (unfold node_state_eq in refl)

check_policy_nodes_complete :
    (g : Graph) (policy : Descriptor) (ns : List Node)
    → All (NodeIsAdmitted g policy) ns
    → check_policy_nodes g policy ns ≡ ok tt
unfolding check_policy_nodes
check_policy_nodes_complete g policy [] h = refl
check_policy_nodes_complete g policy (n ∷ ns) h =
    rw (check_policy_node_complete g policy n h.0) (check_policy_nodes_complete g policy ns h.1)

-- The graph as the registry wants it: a registered policy, a graph that is well formed (strictly so
-- where the request or the policy says it), and nodes that the policy admits.
abbrev pub IsAdmitted : Graph → Bool → Type 0
IsAdmitted g strict =
    (policy : Descriptor) × (policy_find g.policy ≡ some policy)
    × IsWellFormed g (strict || policy.strict_by_default)
    × All (NodeIsAdmitted g policy) g.nodes

validate_under_sound :
    (g : Graph) (strict : Bool) (found : Option Descriptor)
    → policy_find g.policy ≡ found
    → validate_under g strict found ≡ ok tt
    → IsAdmitted g strict
unfolding validate_under
validate_under_sound g strict none e h = absurd (err-ne-ok policy_not_registered tt h)
validate_under_sound g strict (some policy) e h =
    let (valid, nodes) =
      >>-eq-ok (validate_graph g (strict || policy.strict_by_default))
        (check_policy_nodes g policy g.nodes) h in
    (
      policy,
      e,
      (validate_graph_iff g (strict || policy.strict_by_default)).0 valid,
      check_policy_nodes_sound g policy g.nodes nodes,
    )

validate_under_complete :
    (g : Graph) (strict : Bool) (policy : Descriptor)
    → IsWellFormed g (strict || policy.strict_by_default)
    → All (NodeIsAdmitted g policy) g.nodes
    → validate_under g strict (some policy) ≡ ok tt
unfolding validate_under
validate_under_complete g strict policy formed admitted =
    rw
      (
        (validate_graph_iff g (strict || policy.strict_by_default)).1 formed,
        check_policy_nodes_complete g policy g.nodes admitted,
      )
      refl

-- A graph is accepted exactly when its policy is registered, the graph is well formed (strictly so
-- if the request or the policy asks for it), and each node has a registered executor, has no
-- external side effect that the policy forbids, is a draft under `plan.v1`, and passes the action
-- policy under the native executor.
pub policy_validate_iff :
    (g : Graph) (strict : Bool) → (policy_validate g strict ≡ ok tt) ↔ IsAdmitted g strict
unfolding policy_validate
policy_validate_iff g strict = (
  validate_under_sound g strict (policy_find g.policy) refl,
  λ (policy, e, formed, admitted). rw e (validate_under_complete g strict policy formed admitted),
)
