-- ===== src/Executor/Available.antt =====
-- `dtg_executor_graph_is_available` and `dtg_executor_can_dispatch` of
-- src/dstudio_task_executor.c.
use dstudio.Base.{
  ◌≡◌, ◌⊎◌, inl, inr, refl, Bool, true, false, not, ◌&&◌, ◌||◌, List, [], ◌∷◌, All, codes, str_eq,
  eq_of_str_eq, Outcome, ok, err, arith,
}
use dstudio.Graph.Types.{NodeKind, Node, Graph}
use dstudio.Graph.Kinds.{kind_eq}
use dstudio.Graph.Errors.{GraphError}
use dstudio.Policy.Actions.{native_action_policy}
use dstudio.Policy.Confined.{native_action_policy-IsConfined}
use dstudio.Policy.Shapes.{IsConfined}

-- The loop over the nodes.
unfoldable pub all_actions_pass : Graph → List Node → Bool
all_actions_pass g [] = true
all_actions_pass g (n ∷ ns) =
    let rest = all_actions_pass g ns in
    elim (native_action_policy g n) [ ok done ↦ rest | err e ↦ false ]

unfoldable pub graph_is_available : Graph → Bool
graph_is_available g =
    str_eq g.executor_mode (codes "synthetic") && str_eq g.policy (codes "test.synthetic.v1")
    || str_eq g.executor_mode (codes "native")
      && str_eq g.policy (codes "agent.general.v1")
      && str_eq g.mode (codes "agent")
      && all_actions_pass g g.nodes

-- `busy`: an agent works, a session of the user does, or a turn is owned.
unfoldable pub can_dispatch : Bool → Node → Bool
can_dispatch busy n = not (kind_eq n.kind NodeKind.agent_turn && busy)

Outcome-cases : (o : Outcome GraphError (Unit {0})) → (o ≡ ok tt) ⊎ ((e : GraphError) × (o ≡ err e))
Outcome-cases (ok tt) = inl refl
Outcome-cases (err e) = inr (e, refl)

all_actions_pass-IsConfined :
    (g : Graph) (ns : List Node) → all_actions_pass g ns ≡ true → All (IsConfined g) ns
unfolding all_actions_pass
all_actions_pass-IsConfined g [] h = tt
all_actions_pass-IsConfined g (n ∷ ns) h = elim (Outcome-cases (native_action_policy g n)) [
  | inl pass ↦ (
    native_action_policy-IsConfined g n pass,
    all_actions_pass-IsConfined g ns (rw (all_actions_pass, pass) at h),
  )
  | inr (e, refused) ↦ let bad : false ≡ true = rw (all_actions_pass, refused) at h in cc
]

-- A graph that the native executor takes runs under the policy `agent.general.v1` in the mode
-- "agent", and each of its nodes has only capabilities that fit its mutation class.
pub graph_is_available-IsConfined :
    (g : Graph)
    → str_eq g.executor_mode (codes "native") ≡ true
    → graph_is_available g ≡ true
    → (str_eq g.policy (codes "agent.general.v1") ≡ true)
      × (str_eq g.mode (codes "agent") ≡ true)
      × All (IsConfined g) g.nodes
unfolding graph_is_available
graph_is_available-IsConfined g native h =
    let not_synthetic : str_eq g.executor_mode (codes "synthetic") ≡ false =
      rw (eq_of_str_eq g.executor_mode (codes "native") native) (unfold str_eq in refl) in
    let pass : all_actions_pass g g.nodes ≡ true = ground arith in
    (ground arith, ground arith, all_actions_pass-IsConfined g g.nodes pass)
