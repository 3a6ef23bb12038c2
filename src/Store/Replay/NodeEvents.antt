-- ===== src/Store/Replay/NodeEvents.antt =====
-- What replay makes of the event that a store call about a node appends.
use dstudio.Base.{
  ℕ, zero, suc, ◌+◌, ◌<◌, ◌≡◌, inl, inr, refl, sym, ap, ◌∙◌, Bool, true, false, ◌||◌, List, [], ◌∷◌,
  some, Str, str_eq, eq_of_str_eq, str_eq_self, is_empty, arith, Bool-cases, get_elem?,
  get_elem?-set, get_elem?-some-lt, set-set, set,
}
use dstudio.Graph.Types.{GraphState, NodeState, Node, Graph}
use dstudio.Graph.Names.{node_state_name, node_state_parse}
use dstudio.Graph.Names.RoundTrip.{node_state_parse-name}
use dstudio.Graph.Transition.{
  graph_state_eq, node_state_eq, node_transition_allowed, node_enter, transition_node_raw,
}
use dstudio.Graph.Order.{id_at}
use dstudio.Graph.Order.Loop.{HasUniqueIds}
use dstudio.Store.Types.{NodeChange, NodeEvent, Event}
use dstudio.Store.{move_graph, move_node, node_after, node_event, note_node, update_node}
use dstudio.Store.Replay.{
  apply_node, event_apply, event_node, event_node_allowed, event_node_at, event_reads, node_index,
  reset_graph,
}
use dstudio.Store.Replay.GraphEvents.{
  IsMoved, apply_graph-moved, continues_next, graph_may, reports, self-==,
}

abbrev pub node_may : NodeState → NodeState → Bool
node_may from target = node_state_eq target from || node_transition_allowed from target

node_index_first :
    (k i : ℕ) (nodes : List Node) (n : Node)
    → get_elem? nodes i ≡ some n
    → ((j : ℕ) (m : Node) → j < i → get_elem? nodes j ≡ some m → str_eq m.id n.id ≡ false)
    → node_index k nodes n.id ≡ some (k + i)
unfolding node_index
node_index_first k i [] n e before = cc
node_index_first k zero (m ∷ nodes) n e before =
    let same : m ≡ n = cc in
    let hit : str_eq m.id n.id ≡ true = rw same (str_eq_self n.id) in
    let here : k + 0 ≡ k = omega arith in rw (node_index, hit, here) refl
node_index_first k (suc i) (m ∷ nodes) n e before =
    let miss = before 0 m (omega arith) refl in
    let shift : k + suc i ≡ suc k + i = omega arith in
    rw (node_index, miss, shift)
      (node_index_first (suc k) i nodes n e (λ j m' lt at'. before (suc j) m' (omega arith) at'))

pub node_index_unique :
    (nodes : List Node) (i : ℕ) (n : Node)
    → HasUniqueIds nodes
    → get_elem? nodes i ≡ some n
    → node_index 0 nodes n.id ≡ some i
unfolding id_at
node_index_unique nodes i n unique e =
    let shift : 0 + i ≡ i = omega arith in
    let earlier : (j : ℕ) (m : Node)
        → j < i
        → get_elem? nodes j ≡ some m
        → str_eq m.id n.id ≡ false =
      λ j m lt at_j. elim (Bool-cases (str_eq m.id n.id)) [
        | inr other ↦ other
        | inl same ↦
            let ids : id_at nodes j ≡ id_at nodes i =
              rw (id_at, at_j, e) (eq_of_str_eq m.id n.id same) in
            absurd (
              omega (
                arith,
                unique j i (get_elem?-some-lt nodes j m at_j) (get_elem?-some-lt nodes i n e) ids,
              ))
      ] in
    node_index_first 0 i nodes n e earlier ∙ ap some shift

pub update_node-at :
    (f : Node → Node) (i : ℕ) (g : Graph) (m : Node)
    → get_elem? g.nodes i ≡ some m
    → update_node f i g ≡ record g { nodes = set g.nodes i (f m) }
update_node-at f i g m e = rw (update_node, e) refl

transition_node_raw-at :
    (g : Graph) (i : ℕ) (to : NodeState) (now : ℕ) (n : Node)
    → get_elem? g.nodes i ≡ some n
    → node_transition_allowed n.state to ≡ true
    → transition_node_raw g i to now
      ≡ some (record g { nodes = set g.nodes i (node_enter to now n); updated_ms = now })
unfolding transition_node_raw
transition_node_raw-at g i to now n e allowed = rw (transition_node_raw, e, allowed) refl

-- A node event whose graph part is done: the node takes its step and the fields.
module _ (g : Graph) (i : ℕ) (n : Node) (change : NodeChange) (ts : ℕ)
    (e : get_elem? g.nodes i ≡ some n) (may : node_may n.state change.node_state ≡ true) where
  abbrev noted : Node → Node
  noted =
      note_node change.attempts change.attempt_id change.operation_task_id change.synthetic_due_ms

  -- The graph as the event leaves it.
  abbrev target_graph : Node → Graph
  target_graph m = record g {
    nodes = set g.nodes i (noted m);
    updated_ms = ts;
    last_event_seq = suc g.last_event_seq;
  }

  pub node_after-stay :
      node_state_eq change.node_state n.state ≡ true → node_after g i n change ts ≡ target_graph n
  unfolding node_after move_node
  node_after-stay stay = rw (node_after, move_node, stay, e) refl

  pub node_after-step :
      node_state_eq change.node_state n.state ≡ false
      → node_after g i n change ts ≡ target_graph (node_enter change.node_state ts n)
  unfolding node_after move_node transition_node_raw
  node_after-step step =
      let allowed : node_transition_allowed n.state change.node_state ≡ true = ground arith in
      let m = node_enter change.node_state ts n in
      let there = get_elem?-set g.nodes i n m e in
      let moved : move_node g i n change.node_state ts
          ≡ some (record g { nodes = set g.nodes i m; updated_ms = ts }) =
        rw (move_node, transition_node_raw, step, e, allowed) refl in
      let updated =
        update_node-at noted i (record g { nodes = set g.nodes i m; updated_ms = ts }) m there in
      let twice = set-set g.nodes i m (noted m) in rw (node_after, moved, updated, twice) refl

  -- Behind the graph's part of the event, replay does the same.
  abbrev pub graph_part : Graph
  graph_part = record g { updated_ms = ts; last_event_seq = suc g.last_event_seq }

  pub apply_node-after :
      (event : Event) (ne : NodeEvent)
      → event.ts ≡ ts
      → ne.node_state ≡ node_state_name change.node_state
      → ne.attempts ≡ change.attempts
      → ne.attempt_id ≡ change.attempt_id
      → ne.operation_task_id ≡ change.operation_task_id
      → ne.synthetic_due_ms ≡ change.synthetic_due_ms
      → apply_node event ne (i, n) graph_part ≡ some (node_after g i n change ts)
  unfolding apply_node
  apply_node-after event ne time name attempts attempt operation due =
      let parsed : node_state_parse ne.node_state ≡ change.node_state =
        ap node_state_parse name ∙ node_state_parse-name change.node_state in
      let m = node_enter change.node_state ts n in
      elim (Bool-cases (node_state_eq change.node_state n.state)) [
        | inl stay ↦
            let updated = update_node-at noted i graph_part n e in
            rw (apply_node, parsed, stay, attempts, attempt, operation, due, updated)
              (ap some (sym (node_after-stay stay)))
        | inr step ↦
            let allowed : node_transition_allowed n.state change.node_state ≡ true = ground arith in
            let moved : transition_node_raw graph_part i change.node_state ts
                ≡ some (record graph_part { nodes = set g.nodes i m }) =
              transition_node_raw-at graph_part i change.node_state ts n e allowed in
            let there = get_elem?-set g.nodes i n m e in
            let updated =
              update_node-at noted i (record graph_part { nodes = set g.nodes i m }) m there in
            let twice = set-set g.nodes i m (noted m) in
            rw
              (
                apply_node, parsed, step, time, moved, attempts, attempt, operation, due, updated,
                twice,
              )
              (ap some (sym (node_after-step step)))
      ]

pub event_apply-node_event :
    (g : Graph) (i : ℕ) (n : Node) (type : Str) (change : NodeChange) (message : Str) (ts : ℕ)
    → HasUniqueIds g.nodes
    → get_elem? g.nodes i ≡ some n
    → is_empty n.id ≡ false
    → graph_state_eq g.state GraphState.state_invalid ≡ false
    → node_state_eq change.node_state NodeState.state_invalid ≡ false
    → node_may n.state change.node_state ≡ true
    → reports type message g ≡ true
    → event_reads (node_event g n type change message ts) ≡ true
    → event_apply (node_event g n type change message ts) g ≡ some (node_after g i n change ts)
unfolding event_apply event_node event_node_at event_node_allowed node_event move_graph
    graph_state_eq
event_apply-node_event g i n type change message ts unique e named proper valid may quiet reads =
    let event = node_event g n type change message ts in
    let here : graph_state_eq g.state g.state ≡ true = unfold graph_state_eq in self-== _ in
    let stays : graph_may g.state g.state ≡ true = ground arith in
    let next = continues_next event g g.state reads refl refl refl refl proper stays in
    let moved : move_graph g g.state ts ≡ some (record g { updated_ms = ts }) =
      rw (move_graph, here) refl in
    let kept : IsMoved g (record g { updated_ms = ts }) = record {
      created = refl;
      failure = refl;
      origin = unfold reset_graph in refl;
    } in
    let part =
      apply_graph-moved event g (record g { updated_ms = ts }) g.state refl moved kept quiet in
    let index = node_index_unique g.nodes i n unique e in
    let parsed = node_state_parse-name change.node_state in
    rw (event_apply, next, named, index, e, parsed, valid, may, part)
      (apply_node-after g i n change ts e may event _ refl refl refl refl refl refl)
