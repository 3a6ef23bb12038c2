-- ===== src/Graph/Validate/Nodes.antt =====
-- The chain of checks of one node, and of all nodes, as a conjunction.
use dstudio.Base.{
  ℕ, suc, ◌≡◌, refl, Bool, false, not, ◌&&◌, List, [], ◌∷◌, Str, str_eq, ltb, any, All, ok, refuse,
  refuse-eq-ok, >>-eq-ok,
}
use dstudio.Graph.Types.{Mutation, Dependency, Node, Graph}
use dstudio.Graph.Kinds.{mutation_eq}
use dstudio.Graph.Errors.{
  duplicate_node_id, retry_not_idempotent, too_many_attempts, capability_outside_policy,
  output_escapes,
}
use dstudio.Graph.Paths.{relative_path_valid}
use dstudio.Graph.Gates.{has_downstream_gate}
use dstudio.Graph.Validate.{
  find_node, is_missing, capability_allowed, check_dependencies, unsafe_retry, check_node,
  check_nodes,
}

abbrev pub DependencyPasses : List Node → Str → Dependency → Type 0
DependencyPasses nodes id d =
    (str_eq d.node_id id ≡ false) × (is_missing (find_node nodes d.node_id) ≡ false)

pub record NodePasses (g : Graph) (strict : Bool) (i : ℕ) (n : Node) (later : List Node)
    : Type 0 where
  pub distinct : any (λ m. str_eq n.id m.id) later ≡ false
  pub retry_safe : unsafe_retry n ≡ false
  pub attempts : ltb g.max_attempts_per_node n.max_attempts ≡ false
  pub capabilities : any (λ c. not (capability_allowed g.policy c)) n.capabilities ≡ false
  pub outputs : any (λ o. not (relative_path_valid o.path)) n.outputs ≡ false
  pub dependencies : All (DependencyPasses g.nodes n.id) n.dependencies
  pub gated :
      (strict
        && mutation_eq n.mutation Mutation.workspace_write
        && not (has_downstream_gate g.nodes i))
      ≡ false

abbrev pub NodesPass : Graph → Bool → ℕ → List Node → Type 0
NodesPass g strict i [] = Unit
NodesPass g strict i (n ∷ ns) = NodePasses g strict i n ns × NodesPass g strict (suc i) ns

pub check_dependencies_sound :
    (nodes : List Node) (id : Str) (ds : List Dependency)
    → check_dependencies nodes id ds ≡ ok tt
    → All (DependencyPasses nodes id) ds
unfolding check_dependencies
check_dependencies_sound nodes id [] h = tt
check_dependencies_sound nodes id (d ∷ ds) h =
    let (a, h₁) = >>-eq-ok (refuse (str_eq d.node_id id) _) _ h in
    let (b, h₂) = >>-eq-ok (refuse (is_missing (find_node nodes d.node_id)) _) _ h₁ in
    ((refuse-eq-ok _ _ a, refuse-eq-ok _ _ b), check_dependencies_sound nodes id ds h₂)

check_dependencies_complete :
    (nodes : List Node) (id : Str) (ds : List Dependency)
    → All (DependencyPasses nodes id) ds
    → check_dependencies nodes id ds ≡ ok tt
unfolding check_dependencies
check_dependencies_complete nodes id [] h = refl
check_dependencies_complete nodes id (d ∷ ds) h =
    rw (h.0.0, h.0.1) (check_dependencies_complete nodes id ds h.1)

check_node_sound :
    (g : Graph) (strict : Bool) (i : ℕ) (n : Node) (later : List Node)
    → check_node g strict i n later ≡ ok tt
    → NodePasses g strict i n later
unfolding check_node
check_node_sound g strict i n later h =
    let (h₁, k₁) = >>-eq-ok (refuse (any (λ m. str_eq n.id m.id) later) duplicate_node_id) _ h in
    let (h₂, k₂) = >>-eq-ok (refuse (unsafe_retry n) retry_not_idempotent) _ k₁ in
    let (h₃, k₃) =
      >>-eq-ok (refuse (ltb g.max_attempts_per_node n.max_attempts) too_many_attempts) _ k₂ in
    let (h₄, k₄) =
      >>-eq-ok
        (refuse (any (λ c. not (capability_allowed g.policy c)) n.capabilities)
          capability_outside_policy)
        _ k₃ in
    let (h₅, k₅) =
      >>-eq-ok (refuse (any (λ o. not (relative_path_valid o.path)) n.outputs) output_escapes) _
        k₄ in
    let (h₆, k₆) = >>-eq-ok (check_dependencies g.nodes n.id n.dependencies) _ k₅ in
    record {
      distinct = refuse-eq-ok _ _ h₁;
      retry_safe = refuse-eq-ok _ _ h₂;
      attempts = refuse-eq-ok _ _ h₃;
      capabilities = refuse-eq-ok _ _ h₄;
      outputs = refuse-eq-ok _ _ h₅;
      dependencies = check_dependencies_sound g.nodes n.id n.dependencies h₆;
      gated = refuse-eq-ok _ _ k₆;
    }

check_node_complete :
    (g : Graph) (strict : Bool) (i : ℕ) (n : Node) (later : List Node)
    → NodePasses g strict i n later
    → check_node g strict i n later ≡ ok tt
unfolding check_node
check_node_complete g strict i n later p =
    rw
      (
        p.distinct,
        p.retry_safe,
        p.attempts,
        p.capabilities,
        p.outputs,
        check_dependencies_complete g.nodes n.id n.dependencies p.dependencies,
        p.gated,
      )
      refl

pub check_nodes_sound :
    (g : Graph) (strict : Bool) (i : ℕ) (ns : List Node)
    → check_nodes g strict i ns ≡ ok tt
    → NodesPass g strict i ns
unfolding check_nodes
check_nodes_sound g strict i [] h = tt
check_nodes_sound g strict i (n ∷ ns) h =
    let (a, rest) = >>-eq-ok (check_node g strict i n ns) _ h in
    (check_node_sound g strict i n ns a, check_nodes_sound g strict (suc i) ns rest)

pub check_nodes_complete :
    (g : Graph) (strict : Bool) (i : ℕ) (ns : List Node)
    → NodesPass g strict i ns
    → check_nodes g strict i ns ≡ ok tt
unfolding check_nodes
check_nodes_complete g strict i [] h = refl
check_nodes_complete g strict i (n ∷ ns) h =
    rw (check_node_complete g strict i n ns h.0) (check_nodes_complete g strict (suc i) ns h.1)
