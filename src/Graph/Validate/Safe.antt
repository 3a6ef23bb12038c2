-- ===== src/Graph/Validate/Safe.antt =====
-- What `dtg_validate_graph` requires of a graph, and the pass over its nodes that asks for it.
use dstudio.Base.{
  ℕ, zero, suc, ◌+◌, ◌≤◌, ◌<◌, ◌≡◌, refl, subst, Bool, true, false, not, ◌&&◌, some, List, [], ◌∷◌,
  str_eq, eq_of_str_eq, get_elem?, get_elem?-some-lt, any, any-false, any-false_of, All, All-map,
  arith, Bool-cases, inl, inr,
}
use dstudio.Graph.Types.{Mutation, Dependency, Node, Graph}
use dstudio.Graph.Kinds.{mutation_eq}
use dstudio.Graph.Paths.{relative_path_valid}
use dstudio.Graph.Gates.{has_downstream_gate}
use dstudio.Graph.Gates.Search.{GateBelow}
use dstudio.Graph.Gates.Exact.{has_downstream_gate_iff}
use dstudio.Graph.Order.Invariant.{deps_at}
use dstudio.Graph.Order.Loop.{HasUniqueIds}
use dstudio.Graph.Order.Acyclic.{IsAcyclic}
use dstudio.Graph.Validate.{capability_allowed, unsafe_retry, has_approval}
use dstudio.Graph.Validate.Header.{HeaderIsValid}
use dstudio.Graph.Validate.Ids.{IsDistinct, id_at-found, find_node-id_at}
use dstudio.Graph.Validate.Nodes.{DependencyPasses, NodePasses, NodesPass}

-- What is required of node `i`.
pub record NodeIsSafe (g : Graph) (strict : Bool) (i : ℕ) (n : Node) : Type 0 where
  pub retry_safe : unsafe_retry n ≡ false
  pub attempts : n.max_attempts ≤ g.max_attempts_per_node
  pub capabilities : All (λ c. capability_allowed g.policy c ≡ true) n.capabilities
  pub outputs : All (λ o. relative_path_valid o.path ≡ true) n.outputs
  pub gated : strict ≡ true → n.mutation ≡ Mutation.workspace_write → GateBelow g.nodes i

-- A well-formed graph: a valid header, distinct ids, dependencies that name nodes and form no
-- cycle, safe nodes, each strict writer with a gate downstream, and external side effects only
-- under graph approval and with an approval node.
pub record IsWellFormed (g : Graph) (strict : Bool) : Type 0 where
  pub header : HeaderIsValid g
  pub unique : HasUniqueIds g.nodes
  pub acyclic : IsAcyclic g.nodes
  pub safe : (i : ℕ) (n : Node) → get_elem? g.nodes i ≡ some n → NodeIsSafe g strict i n
  pub approved :
      (i : ℕ) (n : Node)
      → get_elem? g.nodes i ≡ some n
      → n.mutation ≡ Mutation.external_side_effect
      → (g.approval_required ≡ true) × (has_approval g.nodes ≡ true)

pub mutation_eq_sound : (a b : Mutation) → mutation_eq a b ≡ true → a ≡ b
unfolding mutation_eq
mutation_eq_sound a b h = ground arith

pub mutation_eq_self : (a : Mutation) → mutation_eq a a ≡ true
unfolding mutation_eq
mutation_eq_self a = ground arith

pub IsDistinct-of_pass :
    (g : Graph) (strict : Bool) (i : ℕ) (ns : List Node) → NodesPass g strict i ns → IsDistinct ns
IsDistinct-of_pass g strict i [] h = tt
IsDistinct-of_pass g strict i (n ∷ ns) h =
    (h.0.distinct, IsDistinct-of_pass g strict (suc i) ns h.1)

pub pass_at :
    (g : Graph) (strict : Bool) (i : ℕ) (ns : List Node) (j : ℕ) (n : Node)
    → NodesPass g strict i ns
    → get_elem? ns j ≡ some n
    → (later : List Node) × NodePasses g strict (i + j) n later
pass_at g strict i [] j n h e = cc
pass_at g strict i (m ∷ ns) zero n h e =
    let shift : i + 0 ≡ i = omega arith in
    let same : m ≡ n = cc in (ns, rw shift (subst (λ x. NodePasses g strict i x ns) same (h.0)))
pass_at g strict i (m ∷ ns) (suc j) n h e =
    let shift : i + suc j ≡ suc i + j = omega arith in
    rw shift (pass_at g strict (suc i) ns j n h.1 e)

pub safe_of_pass :
    (g : Graph) (strict : Bool) (i : ℕ) (n : Node) (later : List Node)
    → get_elem? g.nodes i ≡ some n
    → NodePasses g strict i n later
    → NodeIsSafe g strict i n
safe_of_pass g strict i n later e p = record {
  retry_safe = p.retry_safe;
  attempts = let few = p.attempts in ground arith;
  capabilities =
      All-map _ _ n.capabilities (λ c h. ground arith)
        (any-false (λ c. not (capability_allowed g.policy c)) n.capabilities p.capabilities);
  outputs =
      All-map _ _ n.outputs (λ o h. ground arith)
        (any-false (λ o. not (relative_path_valid o.path)) n.outputs p.outputs);
  gated = λ s w.
      let writes : mutation_eq n.mutation Mutation.workspace_write ≡ true =
        rw w (mutation_eq_self Mutation.workspace_write) in
      let passes = p.gated in
      let found : has_downstream_gate g.nodes i ≡ true = ground arith in
      (has_downstream_gate_iff g.nodes i (get_elem?-some-lt g.nodes i n e)).0 found;
}

pass_of_safe :
    (g : Graph) (strict : Bool) (i : ℕ) (n : Node) (later : List Node)
    → get_elem? g.nodes i ≡ some n
    → any (λ m. str_eq n.id m.id) later ≡ false
    → All (DependencyPasses g.nodes n.id) n.dependencies
    → NodeIsSafe g strict i n
    → NodePasses g strict i n later
pass_of_safe g strict i n later e once deps s = record {
  distinct = once;
  retry_safe = s.retry_safe;
  attempts = let few = s.attempts in ground arith;
  capabilities =
      any-false_of (λ c. not (capability_allowed g.policy c)) n.capabilities
        (All-map _ _ n.capabilities (λ c h. rw h) s.capabilities);
  outputs =
      any-false_of (λ o. not (relative_path_valid o.path)) n.outputs
        (All-map _ _ n.outputs (λ o h. rw h) s.outputs);
  dependencies = deps;
  gated = gate_answer strict (mutation_eq n.mutation Mutation.workspace_write) refl refl;
}
  where
    gate_answer :
        (t w : Bool)
        → strict ≡ t
        → mutation_eq n.mutation Mutation.workspace_write ≡ w
        → (t && w && not (has_downstream_gate g.nodes i)) ≡ false
    gate_answer false w a b = refl
    gate_answer true false a b = refl
    gate_answer true true a b =
        let below = s.gated a (mutation_eq_sound n.mutation Mutation.workspace_write b) in
        rw ((has_downstream_gate_iff g.nodes i (get_elem?-some-lt g.nodes i n e)).1 below)

dependencies_pass :
    (nodes : List Node) (i : ℕ) (n : Node)
    → IsAcyclic nodes
    → get_elem? nodes i ≡ some n
    → All (DependencyPasses nodes n.id) n.dependencies
dependencies_pass nodes i n (rank, ranked) e =
    let same : deps_at nodes i ≡ n.dependencies = rw (e, deps_at) refl in
    let all_ranked = rw same at (ranked i (get_elem?-some-lt nodes i n e)) in
    All-map _ _ n.dependencies
      (λ d (found, lower). (
        other d (rw (id_at-found nodes i n e) at lower),
        find_node-id_at nodes found.0 d.node_id found.1 found.2,
      ))
      all_ranked
  where
    other : (d : Dependency) → rank d.node_id < rank n.id → str_eq d.node_id n.id ≡ false
    other d lower = elim (Bool-cases (str_eq d.node_id n.id)) [
      | inl self ↦
          let lower' = rw (eq_of_str_eq d.node_id n.id self) at lower in absurd (omega arith)
      | inr differs ↦ differs
    ]

pub nodes_pass :
    (g : Graph) (strict : Bool) (w : IsWellFormed g strict) (i : ℕ) (ns : List Node)
    → ((j : ℕ) (n : Node) → get_elem? ns j ≡ some n → get_elem? g.nodes (i + j) ≡ some n)
    → IsDistinct ns
    → NodesPass g strict i ns
nodes_pass g strict w i [] here d = tt
nodes_pass g strict w i (n ∷ ns) here d =
    let shift : i + 0 ≡ i = omega arith in
    let e = rw shift at (here 0 n refl) in
    (
      pass_of_safe g strict i n ns e d.0 (dependencies_pass g.nodes i n w.acyclic e) (w.safe i n e),
      nodes_pass g strict w (suc i) ns
          (λ j m e'. let up : suc i + j ≡ i + suc j = omega arith in rw up (here (suc j) m e')) d.1,
    )
