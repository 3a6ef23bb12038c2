-- ===== src/Scheduler/Cancel/Settles.antt =====
-- Cancellation of one node on healthy disks.
pub mod Progress
pub mod Whole
use dstudio.Base.{
  ℕ, ◌≡◌, ◌⊎◌, inl, inr, refl, sym, ◌∙◌, ap, Bool, true, false, not, ◌&&◌, ◌||◌, some, codes, arith,
  Bool-cases, get_elem?, get_elem?-set, set, set_self, set-set, Str,
}
use dstudio.Graph.Types.{NodeState, Node, Graph}
use dstudio.Graph.Transition.{node_state_eq, node_terminal, node_transition_allowed}
use dstudio.Store.Types.{Disk, Runtime}
use dstudio.Store.Replay.NodeEvents.{update_node-at}
use dstudio.Scheduler.{and_then, scheduler_set_node}
use dstudio.Scheduler.Healthy.{IsHealthy, IsMade, scheduler_set_node-IsMade}
use dstudio.Scheduler.Cancel.{
  cancel_node, drop_node, executor_cancel, executor_cancel_at, is_active, settle_at, settle_node,
}

-- How a node ends: a terminal one as it is, any other cancelled.
abbrev pub Ends : Node → Node → Type 0
Ends n m =
    ((node_terminal n.state ≡ true) × (m ≡ n))
    ⊎ ((node_terminal n.state ≡ false) × (m.state ≡ NodeState.cancelled))

-- A round for node `i`, which is `n`.
pub record IsSettled (rt : Runtime) (i : ℕ) (n : Node) (result : Bool × Runtime) : Type 0 where
  pub done : result.0 ≡ true
  pub node : Node
  pub ends : Ends n node
  pub nodes : result.1.graph.nodes ≡ set rt.graph.nodes i node
  pub graph_state : result.1.graph.state ≡ rt.graph.state

pub and_then-true :
    (r : Bool × Runtime) (f : Runtime → Bool × Runtime) → r.0 ≡ true → and_then r f ≡ f r.1
and_then-true (true, rt) f h = refl
and_then-true (false, rt) f h = cc

-- A node that is at rest may be cancelled at once.
abbrev at_rest : NodeState → Bool
at_rest s =
    not (node_terminal s) && not (is_active s) && not (node_state_eq s NodeState.state_invalid)

rest_step :
    (s : NodeState)
    → at_rest s ≡ true
    → (node_state_eq NodeState.cancelled s ≡ false)
      × (node_transition_allowed s NodeState.cancelled ≡ true)
unfolding node_terminal node_transition_allowed
rest_step s h = ground arith

module _ (disks : ℕ → Disk) (healthy : IsHealthy disks) (rt : Runtime) (i : ℕ) (n : Node)
    (e : get_elem? rt.graph.nodes i ≡ some n) where
  cancelling_node :
      node_state_eq n.state NodeState.cancelling ≡ true
      → at_rest n.state ≡ true
      → IsMade rt i NodeState.cancelled (settle_at disks i rt)
  unfolding settle_at settle_node executor_cancel_at executor_cancel
  cancelling_node hit rest =
      let reason = codes "Task graph cancelled" in
      let m = executor_cancel reason n in
      let updated = update_node-at (executor_cancel reason) i rt.graph n e in
      let (step, allowed) = rest_step n.state rest in
      let there : get_elem? (executor_cancel_at rt i reason).graph.nodes i ≡ some m =
        rw (executor_cancel_at, updated) (get_elem?-set rt.graph.nodes i n m e) in
      let set_ =
        scheduler_set_node-IsMade disks (executor_cancel_at rt i reason) i m
          (codes "node.cancelled") NodeState.cancelled (codes "Graph cancelled") healthy there step
          allowed in
      let twice : set (executor_cancel_at rt i reason).graph.nodes i set_.node
          ≡ set rt.graph.nodes i set_.node =
        rw (executor_cancel_at, updated) (set-set rt.graph.nodes i m set_.node) in
      let state : (executor_cancel_at rt i reason).graph.state ≡ rt.graph.state =
        rw (executor_cancel_at, updated) refl in
      rw (settle_at, e, settle_node, hit)
        (record {
          done = set_.done;
          node = set_.node;
          entered = set_.entered;
          nodes = set_.nodes ∙ twice;
          graph_state = set_.graph_state ∙ state;
        })

  settle_at-IsMade : at_rest n.state ≡ true → IsMade rt i NodeState.cancelled (settle_at disks i rt)
  unfolding settle_at settle_node
  settle_at-IsMade rest = elim (Bool-cases (node_state_eq n.state NodeState.cancelling)) [
    | inl hit ↦ cancelling_node hit rest
    | inr other ↦
        let (step, allowed) = rest_step n.state rest in
        rw (settle_at, e, settle_node, other)
          (scheduler_set_node-IsMade disks rt i n _ NodeState.cancelled _ healthy e step allowed)
  ]

  untouched : node_terminal n.state ≡ true → IsSettled rt i n (true, rt)
  untouched done = record {
    done = refl;
    node = n;
    ends = inl (done, refl);
    nodes = sym (set_self rt.graph.nodes i n e);
    graph_state = refl;
  }

  settled :
      (result : Bool × Runtime)
      → node_terminal n.state ≡ false
      → IsMade rt i NodeState.cancelled result
      → IsSettled rt i n result
  settled result live s = record {
    done = s.done;
    node = s.node;
    ends = inr (live, s.entered);
    nodes = s.nodes;
    graph_state = s.graph_state;
  }

active_step :
    (s : NodeState)
    → is_active s ≡ true
    → (node_state_eq NodeState.cancelling s ≡ false)
      × (node_transition_allowed s NodeState.cancelling ≡ true)
unfolding node_state_eq node_transition_allowed
active_step s h = ground arith

draft_step :
    (s : NodeState)
    → node_state_eq s NodeState.draft ≡ true
    → (node_state_eq NodeState.cancelled s ≡ false)
      × (node_transition_allowed s NodeState.cancelled ≡ true)
unfolding node_state_eq node_transition_allowed
draft_step s h = ground arith

cancelling-at_rest : at_rest NodeState.cancelling ≡ true
unfolding node_state_eq node_terminal
cancelling-at_rest = refl

module _ (disks : ℕ → Disk) (healthy : IsHealthy disks) (rt : Runtime) (i : ℕ) (n : Node)
    (e : get_elem? rt.graph.nodes i ≡ some n) where
  active_node :
      node_terminal n.state ≡ false
      → is_active n.state ≡ true
      → IsSettled rt i n (cancel_node disks rt i)
  unfolding cancel_node
  active_node live active =
      let (step, allowed) = active_step n.state active in
      let first =
        scheduler_set_node-IsMade disks rt i n (codes "node.cancelling") NodeState.cancelling
          (codes "Graph cancellation requested") healthy e step allowed in
      let call =
        scheduler_set_node disks rt i (codes "node.cancelling") NodeState.cancelling
          (codes "Graph cancellation requested") in
      let rt₁ = call.1 in
      let there : get_elem? rt₁.graph.nodes i ≡ some first.node =
        ap (λ nodes. get_elem? nodes i) first.nodes
        ∙ get_elem?-set rt.graph.nodes i n first.node e in
      let rest : at_rest first.node.state ≡ true = ap at_rest first.entered ∙ cancelling-at_rest in
      let second = settle_at-IsMade disks healthy rt₁ i first.node there rest in
      let chained = and_then-true call (settle_at disks i) first.done in
      rw (cancel_node, e, live, active, chained)
        (record {
          done = second.done;
          node = second.node;
          ends = inr (live, second.entered);
          nodes =
              second.nodes
              ∙ ap (λ nodes. set nodes i second.node) first.nodes
              ∙ set-set rt.graph.nodes i first.node second.node;
          graph_state = second.graph_state ∙ first.graph_state;
        })

  pub cancel_node-IsSettled :
      node_state_eq n.state NodeState.state_invalid ≡ false
      → IsSettled rt i n (cancel_node disks rt i)
  unfolding cancel_node
  cancel_node-IsSettled valid = elim (Bool-cases (node_terminal n.state)) [
    | inl done ↦ rw (cancel_node, e, done) (untouched disks healthy rt i n e done)
    | inr live ↦ elim (Bool-cases (is_active n.state)) [
      | inl active ↦ active_node live active
      | inr still ↦
          let rest : at_rest n.state ≡ true = rw (live, still, valid) refl in
          rw (cancel_node, e, live, still)
            (settled disks healthy rt i n e _ live (settle_at-IsMade disks healthy rt i n e rest))
    ]
  ]

  -- Before the start every node that is not terminal is a draft.
  pub drop_node-IsSettled :
      (node_terminal n.state || node_state_eq n.state NodeState.draft) ≡ true
      → IsSettled rt i n (drop_node disks rt i)
  unfolding drop_node
  drop_node-IsSettled early = elim (Bool-cases (node_terminal n.state)) [
    | inl done ↦ rw (drop_node, e, done) (untouched disks healthy rt i n e done)
    | inr live ↦
        let draft : node_state_eq n.state NodeState.draft ≡ true = ground arith in
        let (step, allowed) = draft_step n.state draft in
        rw (drop_node, e, live)
          (settled disks healthy rt i n e _ live
            (scheduler_set_node-IsMade disks rt i n _ NodeState.cancelled _ healthy e step allowed))
  ]
