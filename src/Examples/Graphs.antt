-- ===== src/Examples/Graphs.antt =====
-- The theorems about task graphs at concrete inputs.
use dstudio.Base.{
  ℕ, ◌≡◌, ◌↔◌, ◌≤◌, ◌++◌, refl, true, false, not, ◌&&◌, ◌||◌, List, [], ◌∷◌, some, Str, codes, ok,
  arith, str_eq, is_empty, all, length,
}
use dstudio.Graph.Types.{NodeKind, Mutation, NodeState, GraphState}
use dstudio.Graph.Names.{
  node_state_name, node_state_parse, graph_state_name, graph_state_parse, node_kind_name,
  node_kind_parse, mutation_name, mutation_parse,
}
use dstudio.Graph.Names.RoundTrip.{
  node_state_parse_iff, graph_state_parse_iff, node_kind_parse_iff, mutation_parse_iff,
}
use dstudio.Graph.Transition.{
  node_enter, node_transition_allowed, graph_transition_allowed, graph_terminal, node_terminal,
}
use dstudio.Graph.Transition.Walks.{GraphWalk, graph_terminal_absorbs}
use dstudio.Graph.Transition.Times.{IsTimed, node_enter-IsTimed}
use dstudio.Graph.Paths.{relative_path_valid, is_rooted, id_valid, has_dot_dot, id_max}
use dstudio.Graph.Paths.Components.{components, plain, walk}
use dstudio.Graph.Paths.Relative.{relative_path_valid_lem, relative_path_valid-walk}
use dstudio.Graph.Paths.Ids.{id_valid-component}
use dstudio.Graph.Order.{topological_order}
use dstudio.Graph.Order.Sound.{IsTopological, topological_order-IsTopological}
use dstudio.Graph.Order.Ranked.{topological_order_iff}
use dstudio.Graph.Order.Acyclic.{IsAcyclic}
use dstudio.Graph.Gates.{has_downstream_gate}
use dstudio.Graph.Gates.Search.{GateBelow}
use dstudio.Graph.Gates.Exact.{has_downstream_gate_iff}
use dstudio.Graph.Validate.{validate_graph}
use dstudio.Graph.Validate.Exact.{validate_graph_iff}
use dstudio.Graph.Validate.Safe.{IsWellFormed}
use dstudio.Examples.Samples.{program, sample, writer, sample_sorted, sample_valid}

node_state_parse_iff_example :
    (node_state_parse (codes "leased") ≡ NodeState.leased)
    ↔ (codes "leased" ≡ node_state_name NodeState.leased)
node_state_parse_iff_example = node_state_parse_iff (codes "leased") NodeState.leased (λ e. cc)

graph_state_parse_iff_example :
    (graph_state_parse (codes "paused") ≡ GraphState.paused)
    ↔ (codes "paused" ≡ graph_state_name GraphState.paused)
graph_state_parse_iff_example = graph_state_parse_iff (codes "paused") GraphState.paused (λ e. cc)

node_kind_parse_iff_example :
    (node_kind_parse (codes "gate") ≡ NodeKind.gate) ↔ (codes "gate" ≡ node_kind_name NodeKind.gate)
node_kind_parse_iff_example = node_kind_parse_iff (codes "gate") NodeKind.gate (λ e. cc)

mutation_parse_iff_example :
    ((mutation_parse (codes "read_only") ≡ Mutation.read_only)
      ↔ (codes "read_only" ≡ mutation_name Mutation.read_only))
    × (mutation_parse [] ≡ Mutation.read_only)
mutation_parse_iff_example =
    mutation_parse_iff (codes "read_only") Mutation.read_only (λ e. cc) refl

graph_terminal_absorbs_example : GraphState.succeeded ≡ GraphState.succeeded
unfolding graph_terminal graph_transition_allowed
graph_terminal_absorbs_example =
    graph_terminal_absorbs GraphState.succeeded GraphState.succeeded refl
      (GraphWalk.next GraphWalk.here refl)

writer-IsTimed : IsTimed writer
unfolding node_terminal
writer-IsTimed = record { ended = λ e. cc; live = λ e. refl; queued = λ e. cc; active = λ e. cc }

node_enter-IsTimed_example : IsTimed (node_enter NodeState.pending 7 writer)
unfolding node_transition_allowed
node_enter-IsTimed_example =
    node_enter-IsTimed writer NodeState.pending 7 (omega arith) refl writer-IsTimed

relative_path_valid_lem_example : relative_path_valid (codes "a//b") ≡ (
    is_empty (codes "a//b")
    || not (is_rooted (codes "a//b")) && all plain (components (codes "a//b")))
relative_path_valid_lem_example = relative_path_valid_lem (codes "a//b")

relative_path_valid-walk_example :
    (is_rooted (codes "a/b") ≡ false)
    × ((more : List Str) × (walk (codes "home" ∷ []) (components (codes "a/b"))
          ≡ some (more ++ codes "home" ∷ [])))
unfolding program
relative_path_valid-walk_example =
    relative_path_valid-walk (codes "a/b") (codes "home" ∷ []) refl refl

id_valid-component_example :
    (1 ≤ length (codes "node.1"))
    × (length (codes "node.1") ≤ id_max)
    × (components (codes "node.1") ≡ codes "node.1" ∷ [])
    × (str_eq (codes "node.1") (codes "..") ≡ false)
    × (relative_path_valid (codes "node.1") ≡ not (str_eq (codes "node.1") (codes ".")))
unfolding id_valid has_dot_dot program
id_valid-component_example = id_valid-component (codes "node.1") refl

pub sample-IsWellFormed : IsWellFormed sample true
sample-IsWellFormed = (validate_graph_iff sample true).0 sample_valid

validate_graph_iff_example : (validate_graph sample true ≡ ok tt) ↔ IsWellFormed sample true
validate_graph_iff_example = validate_graph_iff sample true

topological_order-IsTopological_example : IsTopological sample.nodes (1 ∷ 0 ∷ [])
topological_order-IsTopological_example =
    topological_order-IsTopological sample (1 ∷ 0 ∷ []) sample-IsWellFormed.unique sample_sorted

topological_order_iff_example :
    ((order : List ℕ) × (topological_order sample ≡ ok order)) ↔ IsAcyclic sample.nodes
topological_order_iff_example =
    topological_order_iff sample sample-IsWellFormed.unique (omega arith) (omega arith)

has_downstream_gate_iff_example :
    (has_downstream_gate sample.nodes 1 ≡ true) ↔ GateBelow sample.nodes 1
has_downstream_gate_iff_example = has_downstream_gate_iff sample.nodes 1 (omega arith)
