-- ===== src/Scheduler/Walks.antt =====
-- Whatever the disks answer, the store calls move a graph and its nodes along accepted transitions.
pub mod Histories
use dstudio.Base.{
  ℕ, zero, suc, ◌≡◌, ◌≢◌, inl, inr, refl, sym, ◌∙◌, ap, subst, Bool, true, false, not, ◌&&◌, ◌||◌,
  Option, some, none, Str, arith, Bool-cases, Option-cases, ==_iff, ◌==◌, get_elem?, get_elem?-set,
  get_elem?-set-other, set, List,
}
use dstudio.Graph.Types.{GraphState, NodeState, Node, Graph}
use dstudio.Graph.Transition.{
  graph_enter, graph_state_eq, graph_transition_allowed, node_enter, node_state_eq,
  node_transition_allowed, transition_graph_raw,
}
use dstudio.Graph.Transition.Walks.{GraphWalk, NodeWalk}
use dstudio.Store.Types.{
  Append, unopened, torn, injected, appended, Disk, Event, NodeChange, Runtime,
}
use dstudio.Store.{
  append_event, commit, graph_after, move_graph, node_after, note_node, store_graph_event,
  store_node_event, update_node, write_line,
}
use dstudio.Store.Outcomes.{store_graph_event-cases, store_node_event-cases}
use dstudio.Store.Replay.NodeEvents.{node_after-stay, node_after-step, node_may, update_node-at}

GraphWalk-trans : {s t u : GraphState} → GraphWalk s t → GraphWalk t u → GraphWalk s u
GraphWalk-trans v GraphWalk.here = v
GraphWalk-trans v (GraphWalk.next w h) = GraphWalk.next (GraphWalk-trans v w) h

NodeWalk-trans : {s t u : NodeState} → NodeWalk s t → NodeWalk t u → NodeWalk s u
NodeWalk-trans v NodeWalk.here = v
NodeWalk-trans v (NodeWalk.next w h) = NodeWalk.next (NodeWalk-trans v w) h

-- From one graph to a later one, the state and the state of each node have walked.
pub record Walks (g g' : Graph) : Type 0 where
  pub whole : GraphWalk g.state g'.state
  pub nodes :
      (j : ℕ) (n : Node)
      → get_elem? g.nodes j ≡ some n
      → (m : Node) × (get_elem? g'.nodes j ≡ some m) × NodeWalk n.state m.state

pub Walks-refl : (g : Graph) → Walks g g
Walks-refl g = record { whole = GraphWalk.here; nodes = λ j n e. (n, e, NodeWalk.here) }

pub Walks-trans : (g h k : Graph) → Walks g h → Walks h k → Walks g k
Walks-trans g h k v w = record {
  whole = GraphWalk-trans v.whole w.whole;
  nodes = λ j n e.
      let (m, at_m, walk) = v.nodes j n e in
      let (p, at_p, more) = w.nodes j m at_m in (p, at_p, NodeWalk-trans walk more);
}

-- One node is written.
pub Walks-set :
    (g g' : Graph) (i : ℕ) (n m : Node)
    → get_elem? g.nodes i ≡ some n
    → g'.nodes ≡ set g.nodes i m
    → g'.state ≡ g.state
    → NodeWalk n.state m.state
    → Walks g g'
Walks-set g g' i n m e nodes state walk = record {
  whole = subst (GraphWalk g.state) (sym state) GraphWalk.here;
  nodes = λ j x at_j. elim (Bool-cases (j == i)) [
    | inl same ↦
        let eq : j ≡ i = (==_iff j i).0 same in
        let swapped : get_elem? g.nodes i ≡ some x = rw eq at at_j in
        let twin : n ≡ x = cc in
        let now : get_elem? g'.nodes i ≡ some m =
          ap (λ ns. get_elem? ns i) nodes ∙ get_elem?-set g.nodes i n m e in
        (m, rw eq now, subst (λ y. NodeWalk y.state m.state) twin walk)
    | inr other ↦
        let apart : i ≢ j = λ h. let hit = (==_iff j i).1 (sym h) in cc in
        let now = ap (λ ns. get_elem? ns j) nodes ∙ get_elem?-set-other g.nodes i j m apart in
        (x, now ∙ at_j, NodeWalk.here)
  ];
}

-- A write that leaves the state of the node.
pub update_node-Walks :
    (f : Node → Node) (i : ℕ) (g : Graph)
    → ((n : Node) → (f n).state ≡ n.state)
    → Walks g (update_node f i g)
update_node-Walks f i g keeps = elim (Option-cases (get_elem? g.nodes i)) [
  | inl missing ↦ rw (update_node, missing) (Walks-refl g)
  | inr (n, e) ↦
      let updated = update_node-at f i g n e in
      rw updated (
        Walks-set g _ i n (f n) e refl refl
          (subst (NodeWalk n.state) (sym (keeps n)) NodeWalk.here))
]

graph_after-stay :
    (g : Graph) (target : GraphState) (approved : Bool) (ts : ℕ)
    → graph_state_eq target g.state ≡ true
    → Walks g (graph_after g target approved ts)
unfolding graph_after move_graph
graph_after-stay g target approved ts stay =
    rw (graph_after, move_graph, stay)
      (record { whole = GraphWalk.here; nodes = λ j n e. (n, e, NodeWalk.here) })

graph_after-step :
    (g : Graph) (target : GraphState) (approved : Bool) (ts : ℕ)
    → graph_state_eq target g.state ≡ false
    → graph_transition_allowed g.state target ≡ true
    → Walks g (graph_after g target approved ts)
unfolding graph_after move_graph transition_graph_raw graph_enter
graph_after-step g target approved ts step allowed =
    rw (graph_after, move_graph, transition_graph_raw, step, allowed)
      (record {
        whole = GraphWalk.next GraphWalk.here allowed;
        nodes = λ j n e. (n, e, NodeWalk.here);
      })

pub store_graph_event-Walks :
    (disks : ℕ → Disk) (rt : Runtime) (type : Str) (target : GraphState) (approved : Bool)
    (message : Str)
    → Walks rt.graph (store_graph_event disks rt type target approved message).1.graph
store_graph_event-Walks disks rt type target approved message =
    let ts = (disks rt.calls).clock in
    elim (store_graph_event-cases disks rt type target approved message) [
      | inl kept ↦ subst (Walks rt.graph) (sym kept) (Walks-refl rt.graph)
      | inr (may, done) ↦
          subst (Walks rt.graph) (sym done)
            (elim (Bool-cases (graph_state_eq target rt.graph.state)) [
              | inl stay ↦ graph_after-stay rt.graph target approved ts stay
              | inr step ↦ graph_after-step rt.graph target approved ts step (ground arith)
            ])
    ]

node_after-Walks :
    (g : Graph) (i : ℕ) (n : Node) (change : NodeChange) (ts : ℕ)
    → get_elem? g.nodes i ≡ some n
    → node_may n.state change.node_state ≡ true
    → Walks g (node_after g i n change ts)
unfolding note_node node_enter
node_after-Walks g i n change ts e may =
    let noted =
      note_node change.attempts change.attempt_id change.operation_task_id
        change.synthetic_due_ms in
    elim (Bool-cases (node_state_eq change.node_state n.state)) [
      | inl stay ↦
          rw (node_after-stay g i n change ts e may stay)
            (Walks-set g _ i n (noted n) e refl refl NodeWalk.here)
      | inr step ↦
          let allowed : node_transition_allowed n.state change.node_state ≡ true = ground arith in
          rw (node_after-step g i n change ts e may step) (
            Walks-set g _ i n (noted (node_enter change.node_state ts n)) e refl refl
              (NodeWalk.next NodeWalk.here allowed))
    ]

pub store_node_event-Walks :
    (disks : ℕ → Disk) (rt : Runtime) (i : ℕ) (type : Str) (change : NodeChange) (message : Str)
    → Walks rt.graph (store_node_event disks rt i type change message).1.graph
store_node_event-Walks disks rt i type change message =
    elim (store_node_event-cases disks rt i type change message) [
      | inl kept ↦ subst (Walks rt.graph) (sym kept) (Walks-refl rt.graph)
      | inr (n, e, may, done) ↦
          subst (Walks rt.graph) (sym done)
            (node_after-Walks rt.graph i n change (disks rt.calls).clock e may)
    ]
