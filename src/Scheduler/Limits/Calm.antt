-- ===== src/Scheduler/Limits/Calm.antt =====
-- All that the scheduler of src/dstudio_task_scheduler.c does but to dispatch brings no node to work:
-- only a leased node starts, and only a node at work is marked cancelling.
use dstudio.Base.{
  ℕ, zero, suc, ◌≤◌, ◌≡◌, inl, inr, refl, sym, subst, Bool, true, false, ◌||◌, List, [], ◌∷◌, some,
  Str, arith, Bool-cases, Option-cases, get_elem?, set,
}
use dstudio.Graph.Types.{GraphState, NodeState, NodeKind, Node, Graph}
use dstudio.Graph.Transition.{
  graph_enter, graph_state_eq, node_enter, node_state_eq, node_transition_allowed,
  transition_graph_raw,
}
use dstudio.Store.Types.{Disk, NodeChange, Runtime}
use dstudio.Store.{
  graph_after, move_graph, node_after, note_node, store_graph_event, store_node_event, update_node,
}
use dstudio.Store.Outcomes.{store_graph_event-cases, store_node_event-cases}
use dstudio.Store.Replay.GraphEvents.{graph_may}
use dstudio.Store.Replay.NodeEvents.{node_after-stay, node_after-step, node_may, update_node-at}
use dstudio.Scheduler.Kept.{NotLeased, SameCast, SameWork}
use dstudio.Scheduler.Limits.{AllSameWork, AllSameWork-refl, IsWithinLimits, SameLoad}
use dstudio.Scheduler.Ready.{is_running, running_nodes}

abbrev pub at_work : NodeState → Bool
at_work s =
    node_state_eq s NodeState.running
    || node_state_eq s NodeState.leased
    || node_state_eq s NodeState.cancelling

-- The node is of the same sort, and at work only if it was before.
pub record IsCalm (n m : Node) : Type 0 where
  pub cast : SameCast n m
  pub calm : at_work m.state ≡ true → at_work n.state ≡ true

abbrev AllCalm : List Node → List Node → Type 0
AllCalm [] [] = Unit
AllCalm [] (m ∷ ms) = ⊥
AllCalm (n ∷ ns) [] = ⊥
AllCalm (n ∷ ns) (m ∷ ms) = IsCalm n m × AllCalm ns ms

pub record Calms (g g' : Graph) : Type 0 where
  pub most : g'.max_parallel_host_nodes ≡ g.max_parallel_host_nodes
  pub nodes : AllCalm g.nodes g'.nodes

IsCalm-of_same : (n m : Node) → SameWork n m → IsCalm n m
IsCalm-of_same n m same = record { cast = same.cast; calm = λ h. rw same.state at h }

AllCalm-of_same : (ns ms : List Node) → AllSameWork ns ms → AllCalm ns ms
AllCalm-of_same [] [] same = tt
AllCalm-of_same [] (m ∷ ms) same = same
AllCalm-of_same (n ∷ ns) [] same = same
AllCalm-of_same (n ∷ ns) (m ∷ ms) same = (IsCalm-of_same n m same.0, AllCalm-of_same ns ms same.1)

pub SameLoad-Calms : (g g' : Graph) → SameLoad g g' → Calms g g'
SameLoad-Calms g g' same = record {
  most = same.most;
  nodes = AllCalm-of_same g.nodes g'.nodes same.nodes;
}

pub Calms-refl : (g : Graph) → Calms g g
Calms-refl g = SameLoad-Calms g g (record { most = refl; nodes = AllSameWork-refl g.nodes })

AllCalm-set :
    (ns : List Node) (i : ℕ) (n m : Node)
    → get_elem? ns i ≡ some n
    → IsCalm n m
    → AllCalm ns (set ns i m)
AllCalm-set [] i n m e calm = cc
AllCalm-set (x ∷ ns) zero n m e calm =
    let same : n ≡ x = cc in
    (subst (λ y. IsCalm y m) same calm, AllCalm-of_same ns ns (AllSameWork-refl ns))
AllCalm-set (x ∷ ns) (suc i) n m e calm =
    let here : SameWork x x = record {
      cast = record { kind = refl; mutation = refl };
      state = refl;
    } in
    (IsCalm-of_same x x here, AllCalm-set ns i n m e calm)

-- The transitions admit of no other way to work than through a lease.
started_from : (from : NodeState) → node_may from NodeState.running ≡ true → at_work from ≡ true
unfolding node_transition_allowed node_state_eq
started_from from may = ground arith

cancelling_from :
    (from : NodeState) → node_may from NodeState.cancelling ≡ true → at_work from ≡ true
unfolding node_transition_allowed node_state_eq
cancelling_from from may = ground arith

at_work-before :
    (from to : NodeState)
    → NotLeased to
    → node_may from to ≡ true
    → at_work to ≡ true
    → at_work from ≡ true
unfolding node_state_eq
at_work-before from NodeState.leased other may now = absurd other
at_work-before from NodeState.running other may now = started_from from may
at_work-before from NodeState.cancelling other may now = cancelling_from from may
at_work-before from _ other may now = cc

graph_after-Calms :
    (g : Graph) (target : GraphState) (approved : Bool) (ts : ℕ)
    → graph_may g.state target ≡ true
    → Calms g (graph_after g target approved ts)
unfolding graph_after move_graph transition_graph_raw graph_enter
graph_after-Calms g target approved ts may =
    let nodes = (Calms-refl g).nodes in
    elim (Bool-cases (graph_state_eq target g.state)) [
      | inl stay ↦ rw (graph_after, move_graph, stay) (record { most = refl; nodes = nodes })
      | inr step ↦
          let allowed = rw step at may in
          rw (graph_after, move_graph, transition_graph_raw, step, allowed)
            (record { most = refl; nodes = nodes })
    ]

pub store_graph_event-Calms :
    (disks : ℕ → Disk) (rt : Runtime) (type : Str) (target : GraphState) (approved : Bool)
    (message : Str)
    → Calms rt.graph (store_graph_event disks rt type target approved message).1.graph
store_graph_event-Calms disks rt type target approved message =
    elim (store_graph_event-cases disks rt type target approved message) [
      | inl kept ↦ subst (Calms rt.graph) (sym kept) (Calms-refl rt.graph)
      | inr (may, done) ↦
          subst (Calms rt.graph) (sym done) (graph_after-Calms rt.graph target approved _ may)
    ]

node_after-Calms :
    (g : Graph) (i : ℕ) (n : Node) (change : NodeChange) (ts : ℕ)
    → get_elem? g.nodes i ≡ some n
    → node_may n.state change.node_state ≡ true
    → NotLeased change.node_state
    → Calms g (node_after g i n change ts)
unfolding note_node node_enter
node_after-Calms g i n change ts e may other =
    let cast : SameCast n n = record { kind = refl; mutation = refl } in
    elim (Bool-cases (node_state_eq change.node_state n.state)) [
      | inl stay ↦ rw (node_after-stay g i n change ts e may stay) (record {
        most = refl;
        nodes = AllCalm-set g.nodes i n _ e (
            IsCalm-of_same n _
              (record { cast = record { kind = refl; mutation = refl }; state = refl }));
      })
      | inr step ↦ rw (node_after-step g i n change ts e may step) (record {
        most = refl;
        nodes = AllCalm-set g.nodes i n _ e (record {
          cast = record { kind = refl; mutation = refl };
          calm = at_work-before n.state change.node_state other may;
        });
      })
    ]

pub store_node_event-Calms :
    (disks : ℕ → Disk) (rt : Runtime) (i : ℕ) (type : Str) (change : NodeChange) (message : Str)
    → NotLeased change.node_state
    → Calms rt.graph (store_node_event disks rt i type change message).1.graph
store_node_event-Calms disks rt i type change message other =
    elim (store_node_event-cases disks rt i type change message) [
      | inl kept ↦ subst (Calms rt.graph) (sym kept) (Calms-refl rt.graph)
      | inr (n, e, may, done) ↦
          subst (Calms rt.graph) (sym done) (node_after-Calms rt.graph i n change _ e may other)
    ]

pub update_node-Calms :
    (f : Node → Node) (i : ℕ) (g : Graph)
    → ((n : Node) → SameWork n (f n))
    → Calms g (update_node f i g)
update_node-Calms f i g keeps = elim (Option-cases (get_elem? g.nodes i)) [
  | inl missing ↦ rw (update_node, missing) (Calms-refl g)
  | inr (n, e) ↦ rw (update_node-at f i g n e) (record {
    most = refl;
    nodes = AllCalm-set g.nodes i n (f n) e (IsCalm-of_same n (f n) (keeps n));
  })
]

-- No more of any sort of work.
module _ (kind : NodeKind) (writers_only : Bool) where
  is_running-IsCalm :
      (n m : Node)
      → IsCalm n m
      → is_running kind writers_only m ≡ true
      → is_running kind writers_only n ≡ true
  unfolding is_running
  is_running-IsCalm n m calm h =
      let before : at_work m.state ≡ true → at_work n.state ≡ true = calm.calm in
      let h' = rw (calm.cast.kind, calm.cast.mutation) at h in
      let now : at_work m.state ≡ true = ground arith in let then_ = before now in ground arith

  running_nodes-AllCalm :
      (ns ms : List Node)
      → AllCalm ns ms
      → running_nodes kind writers_only ms ≤ running_nodes kind writers_only ns
  unfolding running_nodes
  running_nodes-AllCalm [] [] calm = omega arith
  running_nodes-AllCalm [] (m ∷ ms) calm = absurd calm
  running_nodes-AllCalm (n ∷ ns) [] calm = absurd calm
  running_nodes-AllCalm (n ∷ ns) (m ∷ ms) calm =
      let rest = running_nodes-AllCalm ns ms calm.1 in
      elim (Bool-cases (is_running kind writers_only m)) [
        | inl runs ↦
            let before = is_running-IsCalm n m calm.0 runs in
            rw (runs, before) (omega (arith, rest))
        | inr rests ↦ rw rests (omega (arith, rest))
      ]

pub Calms-IsWithinLimits :
    (g g' : Graph) (others : List Graph)
    → Calms g g'
    → IsWithinLimits g others
    → IsWithinLimits g' others
Calms-IsWithinLimits g g' others calm within =
    let fewer : (kind : NodeKind) (writers_only : Bool)
        → running_nodes kind writers_only g'.nodes ≤ running_nodes kind writers_only g.nodes =
      λ kind writers_only. running_nodes-AllCalm kind writers_only g.nodes g'.nodes calm.nodes in
    record {
      llm_turns = omega (arith, fewer NodeKind.agent_turn false, within.llm_turns);
      writers = omega (arith, fewer NodeKind.kind_invalid true, within.writers);
      host_tools = omega (arith, fewer NodeKind.host_tool false, within.host_tools, calm.most);
    }
