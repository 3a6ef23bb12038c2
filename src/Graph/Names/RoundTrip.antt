-- ===== src/Graph/Names/RoundTrip.antt =====
-- Printing and parsing of kinds, mutation classes and states.
use dstudio.Base.{
  ◌≡◌, refl, sym, ◌∙◌, subst, ◌≢◌, ◌↔◌, ◌⊎◌, inl, inr, true, false, List, [], ◌∷◌, Str, str_eq,
  is_empty, eq_of_str_eq, Bool-cases, arith,
}
use dstudio.Graph.Types.{NodeKind, GraphState, NodeState, Mutation}
use dstudio.Graph.Names.{
  node_kind_name, node_kind_parse, mutation_name, mutation_parse, node_state_name, node_state_parse,
  graph_state_name, graph_state_parse, first_named, node_states, graph_states,
}

first_named_cases {ℓ} :
    {A : Type ℓ} (name : A → Str) (invalid : A) (s : Str) (vs : List A)
    → (first_named name invalid s vs ≡ invalid) ⊎ (s ≡ name (first_named name invalid s vs))
unfolding first_named
first_named_cases name invalid s [] = inl refl
first_named_cases name invalid s (v ∷ vs) = elim (Bool-cases (str_eq s (name v))) [
  | inl hit ↦ rw hit (inr (eq_of_str_eq s (name v) hit))
  | inr miss ↦ rw miss (first_named_cases name invalid s vs)
]

pub node_state_parse-name : (v : NodeState) → node_state_parse (node_state_name v) ≡ v
unfolding node_state_parse node_state_name first_named str_eq
node_state_parse-name NodeState.draft = refl
node_state_parse-name _ = refl

pub graph_state_parse-name : (v : GraphState) → graph_state_parse (graph_state_name v) ≡ v
unfolding graph_state_parse graph_state_name first_named str_eq
graph_state_parse-name GraphState.draft = refl
graph_state_parse-name _ = refl

-- A text parses as a proper node state exactly when it is that state's name.
pub node_state_parse_iff :
    (s : Str) (v : NodeState)
    → v ≢ NodeState.state_invalid
    → (node_state_parse s ≡ v) ↔ (s ≡ node_state_name v)
unfolding node_state_parse
node_state_parse_iff s v valid = (
  λ e. elim (first_named_cases node_state_name NodeState.state_invalid s node_states) [
    | inl none ↦ absurd (valid (sym e ∙ none))
    | inr named ↦ subst (λ w. s ≡ node_state_name w) e named
  ],
  λ e. rw e (node_state_parse-name v),
)

-- A text parses as a proper graph state exactly when it is that state's name.
pub graph_state_parse_iff :
    (s : Str) (v : GraphState)
    → v ≢ GraphState.state_invalid
    → (graph_state_parse s ≡ v) ↔ (s ≡ graph_state_name v)
unfolding graph_state_parse
graph_state_parse_iff s v valid = (
  λ e. elim (first_named_cases graph_state_name GraphState.state_invalid s graph_states) [
    | inl none ↦ absurd (valid (sym e ∙ none))
    | inr named ↦ subst (λ w. s ≡ graph_state_name w) e named
  ],
  λ e. rw e (graph_state_parse-name v),
)

node_kind_parse-name : (v : NodeKind) → node_kind_parse (node_kind_name v) ≡ v
unfolding node_kind_parse node_kind_name str_eq
node_kind_parse-name NodeKind.gate = refl
node_kind_parse-name _ = refl

mutation_parse-name : (v : Mutation) → mutation_parse (mutation_name v) ≡ v
unfolding mutation_parse mutation_name str_eq
mutation_parse-name Mutation.read_only = refl
mutation_parse-name _ = refl

node_kind_parse_sound :
    (s : Str)
    → (node_kind_parse s ≡ NodeKind.kind_invalid)
      ⊎ (str_eq s (node_kind_name (node_kind_parse s)) ≡ true)
unfolding node_kind_parse node_kind_name
node_kind_parse_sound s = ground arith

mutation_parse_sound :
    (s : Str)
    → is_empty s ≡ false
    → (mutation_parse s ≡ Mutation.mutation_invalid)
      ⊎ (str_eq s (mutation_name (mutation_parse s)) ≡ true)
unfolding mutation_parse mutation_name
mutation_parse_sound s h = ground arith

-- A text parses as a proper kind exactly when it is that kind's name.
pub node_kind_parse_iff :
    (s : Str) (v : NodeKind)
    → v ≢ NodeKind.kind_invalid
    → (node_kind_parse s ≡ v) ↔ (s ≡ node_kind_name v)
node_kind_parse_iff s v valid = (
  λ e. elim (node_kind_parse_sound s) [
    | inl none ↦ absurd (valid (sym e ∙ none))
    | inr named ↦ subst (λ w. s ≡ node_kind_name w) e (eq_of_str_eq s _ named)
  ],
  λ e. rw e (node_kind_parse-name v),
)

-- A text that is not empty parses as a proper mutation class exactly when it is that class's name,
-- and an empty text parses as `read_only`.
pub mutation_parse_iff :
    (s : Str) (v : Mutation)
    → v ≢ Mutation.mutation_invalid
    → is_empty s ≡ false
    → ((mutation_parse s ≡ v) ↔ (s ≡ mutation_name v)) × (mutation_parse [] ≡ Mutation.read_only)
mutation_parse_iff s v valid full = (
  (
    λ e. elim (mutation_parse_sound s full) [
      | inl none ↦ absurd (valid (sym e ∙ none))
      | inr named ↦ subst (λ w. s ≡ mutation_name w) e (eq_of_str_eq s _ named)
    ],
    λ e. rw e (mutation_parse-name v),
  ),
  unfold mutation_parse in refl,
)
