-- ===== src/Scheduler/Cancel/Settles/Whole.antt =====
-- Cancellation of a whole graph on healthy disks.
use dstudio.Base.{
  ℕ, ◌≡◌, inl, inr, refl, sym, subst, ◌∙◌, ap, Bool, true, false, ◌||◌, some, codes, arith,
  Bool-cases, get_elem?, length, Str,
}
use dstudio.Graph.Types.{GraphState, NodeState, Node, Graph}
use dstudio.Graph.Transition.{
  graph_state_eq, graph_terminal, graph_transition_allowed, node_state_eq, node_terminal,
}
use dstudio.Store.Types.{Disk, Runtime}
use dstudio.Store.{store_graph_event}
use dstudio.Store.Replay.GraphEvents.{graph_may}
use dstudio.Scheduler.{each_node}
use dstudio.Scheduler.Healthy.{IsHealthy, store_graph_event-IsEntered}
use dstudio.Scheduler.Cancel.{
  cancel_node, drop_node, not_started, process_cancelling, scheduler_cancel,
}
use dstudio.Scheduler.Cancel.Settles.{and_then-true, cancel_node-IsSettled, drop_node-IsSettled}
use dstudio.Scheduler.Cancel.Settles.Progress.{EndsBelow, Progress, each_node-Progress}

-- A cancelled graph: the call succeeds, and each node has ended.
pub record IsCancelled (rt : Runtime) (result : Bool × Runtime) : Type 0 where
  pub done : result.0 ≡ true
  pub state : result.1.graph.state ≡ GraphState.cancelled
  pub ends : EndsBelow (length rt.graph.nodes) rt.graph.nodes result.1.graph.nodes

-- The last event of a cancellation.
conclude :
    (disks : ℕ → Disk) (rt₀ rt : Runtime) (type message : Str)
    → IsHealthy disks
    → Progress rt₀ rt (length rt₀.graph.nodes)
    → graph_may rt.graph.state GraphState.cancelled ≡ true
    → IsCancelled rt₀
        (store_graph_event disks rt type GraphState.cancelled rt.graph.approved message)
conclude disks rt₀ rt type message healthy p may =
    let last =
      store_graph_event-IsEntered disks rt type GraphState.cancelled rt.graph.approved message
        healthy may in
    record {
      done = last.done;
      state = last.entered;
      ends = subst (EndsBelow (length rt₀.graph.nodes) rt₀.graph.nodes) (sym last.nodes) p.below;
    }

cancelling_cancelled : graph_may GraphState.cancelling GraphState.cancelled ≡ true
unfolding graph_state_eq graph_transition_allowed
cancelling_cancelled = refl

early_cancelled : (s : GraphState) → not_started s ≡ true → graph_may s GraphState.cancelled ≡ true
unfolding graph_state_eq graph_transition_allowed
early_cancelled s h = ground arith

late_cancelling :
    (s : GraphState)
    → not_started s ≡ false
    → graph_terminal s ≡ false
    → graph_state_eq s GraphState.state_invalid ≡ false
    → graph_may s GraphState.cancelling ≡ true
unfolding graph_state_eq graph_transition_allowed graph_terminal
late_cancelling s h live valid = ground arith

cancelling_self : graph_state_eq GraphState.cancelling GraphState.cancelling ≡ true
unfolding graph_state_eq
cancelling_self = refl

abbrev pub AllNodes : (Node → Type 0) → Graph → Type 0
AllNodes P g = (j : ℕ) (n : Node) → get_elem? g.nodes j ≡ some n → P n

abbrev pub IsProperNode : Node → Type 0
IsProperNode n = node_state_eq n.state NodeState.state_invalid ≡ false

abbrev pub IsEarlyNode : Node → Type 0
IsEarlyNode n = (node_terminal n.state || node_state_eq n.state NodeState.draft) ≡ true

module _ (disks : ℕ → Disk) (healthy : IsHealthy disks) where
  process_cancelling-IsCancelled :
      (rt : Runtime)
      → rt.graph.state ≡ GraphState.cancelling
      → AllNodes IsProperNode rt.graph
      → IsCancelled rt (process_cancelling disks rt)
  unfolding process_cancelling
  process_cancelling-IsCancelled rt cancelling proper =
      let (done, p) =
        each_node-Progress IsProperNode (cancel_node disks)
          (λ rt' i n e. cancel_node-IsSettled disks healthy rt' i n e) rt proper in
      let entered : graph_state_eq rt.graph.state GraphState.cancelling ≡ true =
        ap (λ s. graph_state_eq s GraphState.cancelling) cancelling ∙ cancelling_self in
      let call = each_node (cancel_node disks) rt in
      let may : graph_may call.1.graph.state GraphState.cancelled ≡ true =
        ap (λ s. graph_may s GraphState.cancelled) (p.state ∙ cancelling) ∙ cancelling_cancelled in
      let chained =
        and_then-true call
          (λ rt'.
            store_graph_event disks rt' (codes "graph.cancelled") GraphState.cancelled
              rt'.graph.approved (codes "Graph cancellation settled"))
          done in
      rw (process_cancelling, entered, chained) (conclude disks rt call.1 _ _ healthy p may)

  early_cancel :
      (rt : Runtime)
      → graph_terminal rt.graph.state ≡ false
      → not_started rt.graph.state ≡ true
      → AllNodes IsEarlyNode rt.graph
      → IsCancelled rt (scheduler_cancel disks rt)
  unfolding scheduler_cancel
  early_cancel rt live early drafts =
      let (done, p) =
        each_node-Progress IsEarlyNode (drop_node disks)
          (λ rt' i n e. drop_node-IsSettled disks healthy rt' i n e) rt drafts in
      let call = each_node (drop_node disks) rt in
      let may : graph_may call.1.graph.state GraphState.cancelled ≡ true =
        ap (λ s. graph_may s GraphState.cancelled) p.state ∙ early_cancelled rt.graph.state early in
      let chained =
        and_then-true call
          (λ rt'.
            store_graph_event disks rt' (codes "graph.cancelled") GraphState.cancelled
              rt'.graph.approved (codes "Graph cancelled"))
          done in
      rw (scheduler_cancel, live, early, chained) (conclude disks rt call.1 _ _ healthy p may)

  late_cancel :
      (rt : Runtime)
      → graph_terminal rt.graph.state ≡ false
      → not_started rt.graph.state ≡ false
      → graph_state_eq rt.graph.state GraphState.state_invalid ≡ false
      → AllNodes IsProperNode rt.graph
      → IsCancelled rt (scheduler_cancel disks rt)
  unfolding scheduler_cancel
  late_cancel rt live late valid proper =
      let call =
        store_graph_event disks rt (codes "graph.cancelling") GraphState.cancelling
          rt.graph.approved (codes "Cancellation requested") in
      let first =
        store_graph_event-IsEntered disks rt (codes "graph.cancelling") GraphState.cancelling
          rt.graph.approved (codes "Cancellation requested") healthy
          (late_cancelling rt.graph.state late live valid) in
      let proper' : AllNodes IsProperNode call.1.graph =
        λ j n e. proper j n (ap (λ ns. get_elem? ns j) (sym first.nodes) ∙ e) in
      let rest = process_cancelling-IsCancelled call.1 first.entered proper' in
      let chained = and_then-true call (process_cancelling disks) first.done in
      rw (scheduler_cancel, live, late, chained)
        (record {
          done = rest.done;
          state = rest.state;
          ends =
              subst (λ ns. EndsBelow (length ns) ns (process_cancelling disks call.1).1.graph.nodes)
                first.nodes rest.ends;
        })

-- On disks on which every store call succeeds, cancelling a graph that is not terminal succeeds,
-- from any proper state: the graph is cancelled, its terminal nodes are as they were, and every
-- other node is cancelled. Before the start, the nodes that are not terminal are drafts.
pub scheduler_cancel-IsCancelled :
    (disks : ℕ → Disk) (rt : Runtime)
    → IsHealthy disks
    → graph_terminal rt.graph.state ≡ false
    → graph_state_eq rt.graph.state GraphState.state_invalid ≡ false
    → AllNodes IsProperNode rt.graph
    → (not_started rt.graph.state ≡ true → AllNodes IsEarlyNode rt.graph)
    → IsCancelled rt (scheduler_cancel disks rt)
scheduler_cancel-IsCancelled disks rt healthy live valid proper early =
    elim (Bool-cases (not_started rt.graph.state)) [
      | inl before ↦ early_cancel disks healthy rt live before (early before)
      | inr after ↦ late_cancel disks healthy rt live after valid proper
    ]
