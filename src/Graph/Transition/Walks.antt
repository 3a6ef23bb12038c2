-- ===== src/Graph/Transition/Walks.antt =====
-- Where the transition tables lead over many steps.
use dstudio.Base.{◌≡◌, refl, true, arith}
use dstudio.Graph.Types.{GraphState, NodeState}
use dstudio.Graph.Transition.{
  node_state_eq, graph_state_eq, graph_terminal, node_transition_allowed, graph_transition_allowed,
}

-- A chain of accepted transitions.
pub data NodeWalk (s : NodeState) : NodeState → Type 0 where
  here : NodeWalk s s
  next : {t u : NodeState} → NodeWalk s t → node_transition_allowed t u ≡ true → NodeWalk s u

pub data GraphWalk (s : GraphState) : GraphState → Type 0 where
  here : GraphWalk s s
  next : {t u : GraphState} → GraphWalk s t → graph_transition_allowed t u ≡ true → GraphWalk s u

pub node_state_eq_sound : (a b : NodeState) → node_state_eq a b ≡ true → a ≡ b
unfolding node_state_eq
node_state_eq_sound a b h = ground arith

pub graph_state_eq_sound : (a b : GraphState) → graph_state_eq a b ≡ true → a ≡ b
unfolding graph_state_eq
graph_state_eq_sound a b h = ground arith

graph_step_terminal :
    (a b : GraphState) → graph_terminal a ≡ true → graph_transition_allowed a b ≡ true → b ≡ a
unfolding graph_terminal graph_transition_allowed
graph_step_terminal a b t h = ground arith

-- A terminal graph state is final: whatever follows it in a chain of accepted transitions is itself.
pub graph_terminal_absorbs : (s t : GraphState) → graph_terminal s ≡ true → GraphWalk s t → t ≡ s
graph_terminal_absorbs s t done GraphWalk.here = refl
graph_terminal_absorbs s t done (GraphWalk.next {t = m} w h) =
    let same = graph_terminal_absorbs s m done w in graph_step_terminal s t done (rw same at h)
