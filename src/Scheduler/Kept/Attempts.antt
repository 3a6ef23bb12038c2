-- ===== src/Scheduler/Kept/Attempts.antt =====
-- The parts of a tick that ask no executor keep what the store calls keep.
use dstudio.Base.{
  List, ℕ, inl, inr, Bool, true, false, not, ◌&&◌, ◌||◌, Bool-cases, str_eq, ltb, ◌==◌,
}
use dstudio.Graph.Types.{Graph, GraphState, Node, NodeKind, NodeState}
use dstudio.Graph.Transition.{graph_state_eq, node_state_eq}
use dstudio.Store.Types.{Disk, Runtime}
use dstudio.Scheduler.{each_node}
use dstudio.Scheduler.Executor.{Executor}
use dstudio.Scheduler.Finalize.{finalize_graph, required_failure, unfinished, failure_message}
use dstudio.Scheduler.Ready.{ready_node, recompute_ready, running_nodes, weigh_dependencies}
use dstudio.Scheduler.Run.{
  after_failure, close_attempt, continuation_message, is_goal, proven_no_effect,
}
use dstudio.Scheduler.Tick.{close_pause, init_node, pause_node, settle_pause}
use dstudio.Scheduler.Kept.{IsKept}
use dstudio.Scheduler.Kept.Loops.{
  and_then-Keeps, StepKeeps, each_node-Keeps, with_node-Keeps, when_state-Keeps, if-Keeps,
  set_node-Keeps,
}

module _ {R : Graph → Graph → Type 0} {disks : ℕ → Disk} {ex : Executor} {others : List Graph}
    (k : IsKept disks ex others R) where
  pub after_failure-Keeps :
      (live : Bool) (i : ℕ) (n : Node) → StepKeeps R (after_failure disks live i n)
  unfolding after_failure
  after_failure-Keeps live i n rt =
      if-Keeps k.order
        (is_goal n
          && str_eq n.native_message continuation_message
          && not n.native_cancel_requested
          && not n.watchdog_tripped
          && live
          && ltb n.attempts_started n.max_attempts)
        rt.graph _ _ (k.node_events rt i _ _ _ tt)
        (if-Keeps k.order (is_goal n && graph_state_eq rt.graph.state GraphState.running) rt.graph _
          _ (k.graph_events rt _ GraphState.needs_input _ _)
          (if-Keeps k.order
            (n.automatic_retry
              && (n.idempotent || proven_no_effect n)
              && ltb n.attempts_started n.max_attempts)
            rt.graph _ _ (k.node_events rt i _ _ _ tt) (k.order.start rt.graph)))

  pub close_attempt-Keeps :
      (live : Bool) (i : ℕ) (success : Bool) (n : Node)
      → StepKeeps R (close_attempt disks live i success n)
  unfolding close_attempt
  close_attempt-Keeps live i true n rt = k.node_events rt i _ _ _ tt
  close_attempt-Keeps live i false n rt =
      and_then-Keeps k.order rt.graph _ _ (k.node_events rt i _ _ _ tt)
        (with_node-Keeps k.order i _ (after_failure-Keeps live i))

  pub ready_node-Keeps : (i : ℕ) → StepKeeps R (λ rt. ready_node disks rt i)
  unfolding ready_node
  ready_node-Keeps i = with_node-Keeps k.order i _ λ n rt.
      let weighed = weigh_dependencies rt.graph.nodes n.dependencies in
      let blocked = node_state_eq n.state NodeState.blocked in
      if-Keeps k.order (not (node_state_eq n.state NodeState.pending) && not blocked) rt.graph _ _
        (k.order.start rt.graph)
        (if-Keeps k.order (weighed.1 && not blocked) rt.graph _ _
          (set_node-Keeps k i _ NodeState.blocked _ tt rt)
          (if-Keeps k.order (not weighed.1 && weighed.0) rt.graph _ _
            (and_then-Keeps k.order rt.graph _ _
              (if-Keeps k.order blocked rt.graph _ _
                (set_node-Keeps k i _ NodeState.pending _ tt rt) (k.order.start rt.graph))
              (set_node-Keeps k i _ NodeState.ready _ tt))
            (k.order.start rt.graph)))

  pub recompute_ready-Keeps : StepKeeps R (recompute_ready disks)
  unfolding recompute_ready
  recompute_ready-Keeps = each_node-Keeps k.order _ ready_node-Keeps

  pub finalize_graph-Keeps : StepKeeps R (finalize_graph disks)
  unfolding finalize_graph
  finalize_graph-Keeps rt =
      let g = rt.graph in
      let running = graph_state_eq g.state GraphState.running in
      let rt' = record rt { graph = record g { error = failure_message } } in
      let noted : R g rt'.graph = k.errors g failure_message in
      if-Keeps k.order (required_failure g.nodes && running) g _ _
        (k.order.chain g rt'.graph _ noted (k.graph_events rt' _ GraphState.failed _ _))
        (if-Keeps k.order (not (unfinished g.nodes) && running) g _ _
          (k.graph_events rt _ GraphState.succeeded _ _) (k.order.start g))

  pub init_node-Keeps : (i : ℕ) → StepKeeps R (λ rt. init_node disks rt i)
  unfolding init_node
  init_node-Keeps i = with_node-Keeps k.order i _ λ n.
      when_state-Keeps k.order NodeState.draft _ n (set_node-Keeps k i _ NodeState.pending _ tt)

  pub pause_node-Keeps : (i : ℕ) → StepKeeps R (λ rt. pause_node disks rt i)
  unfolding pause_node
  pause_node-Keeps i =
      with_node-Keeps k.order i _ λ n.
        when_state-Keeps k.order NodeState.ready _ n (set_node-Keeps k i _ NodeState.paused _ tt)

  pub settle_pause-Keeps : (rt : Runtime) → R rt.graph (settle_pause disks rt).graph
  unfolding settle_pause close_pause
  settle_pause-Keeps rt =
      let paused = (each_node (pause_node disks) rt).1 in
      elim (Bool-cases (running_nodes NodeKind.kind_invalid false rt.graph.nodes == 0)) [
        | inl idle ↦
            rw (settle_pause, idle)
              (k.order.chain rt.graph paused.graph _ (each_node-Keeps k.order _ pause_node-Keeps rt)
                (k.graph_events paused _ GraphState.paused _ _))
        | inr busy ↦ rw (settle_pause, busy) (k.order.start rt.graph)
      ]
