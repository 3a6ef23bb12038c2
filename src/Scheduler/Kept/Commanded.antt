-- ===== src/Scheduler/Kept/Commanded.antt =====
-- The commands other than cancel keep what the store calls keep.
use dstudio.Base.{
  List, ℕ, inl, inr, Bool, not, ◌&&◌, ◌||◌, Option, some, none, Str, Option-cases, get_elem?, ltb,
}
use dstudio.Graph.Types.{Graph, GraphState, Node, NodeState}
use dstudio.Graph.Transition.{graph_state_eq, node_state_eq}
use dstudio.Store.Types.{Disk, Runtime}
use dstudio.Store.Replay.{node_index}
use dstudio.Scheduler.Commands.{
  resume_graph, awaits_approval, may_retry, may_skip, retry_at, skip_at, enter_node, find_goal,
  goal_waiting, grant_node, hangs_on, on_node, prepare_goal, reopen_gate, reopen_gates, reopen_goal,
  scheduler_approve_graph, scheduler_approve_node, scheduler_pause, scheduler_resume,
  scheduler_retry_node, scheduler_skip_node, scheduler_start, wake_node,
}
use dstudio.Scheduler.Executor.{Executor}
use dstudio.Scheduler.Kept.{IsKept}
use dstudio.Scheduler.Kept.Loops.{
  and_then-Keeps, StepKeeps, each_node-Keeps, with_node-Keeps, when_state-Keeps, if-Keeps,
  set_node-Keeps,
}

module _ {R : Graph → Graph → Type 0} {disks : ℕ → Disk} {ex : Executor} {others : List Graph}
    (k : IsKept disks ex others R) where
  enter_node-Keeps : (i : ℕ) → StepKeeps R (λ rt. enter_node disks rt i)
  unfolding enter_node
  enter_node-Keeps i = with_node-Keeps k.order i _ λ n.
      when_state-Keeps k.order NodeState.draft _ n (set_node-Keeps k i _ NodeState.pending _ tt)

  pub scheduler_start-Keeps : StepKeeps R (scheduler_start disks ex)
  unfolding scheduler_start
  scheduler_start-Keeps rt =
      if-Keeps k.order
        (rt.corrupt
          || rt.graph.approval_required && not rt.graph.approved
          || not (graph_state_eq rt.graph.state GraphState.ready)
          || not (ex.graph_available rt.graph)
          || not (ex.context_preflight rt.graph))
        rt.graph _ _ (k.order.start rt.graph)
        (and_then-Keeps k.order rt.graph _ _ (k.graph_events rt _ GraphState.running _ _)
          (each_node-Keeps k.order _ enter_node-Keeps))

  pub scheduler_pause-Keeps : StepKeeps R (scheduler_pause disks)
  unfolding scheduler_pause
  scheduler_pause-Keeps rt =
      if-Keeps k.order (graph_state_eq rt.graph.state GraphState.running) rt.graph _ _
        (k.graph_events rt _ GraphState.pausing _ _) (k.order.start rt.graph)

  on_node-Keeps :
      (admits : Node → Bool) (step : ℕ → Node → Runtime → Bool × Runtime) (id : Str)
      → ((i : ℕ) (n : Node) → StepKeeps R (step i n))
      → StepKeeps R (on_node admits step id)
  on_node-Keeps admits step id keeps rt = elim (Option-cases (node_index 0 rt.graph.nodes id)) [
    | inl unknown ↦ rw (on_node, unknown) (k.order.start rt.graph)
    | inr (i, known) ↦ elim (Option-cases (get_elem? rt.graph.nodes i)) [
      | inl missing ↦ rw (on_node, known, missing) (k.order.start rt.graph)
      | inr (n, e) ↦
          rw (on_node, known, e)
            (if-Keeps k.order (admits n) rt.graph _ _ (keeps i n rt) (k.order.start rt.graph))
    ]
  ]

  pub scheduler_retry_node-Keeps : (id : Str) → StepKeeps R (scheduler_retry_node disks id)
  unfolding scheduler_retry_node retry_at
  scheduler_retry_node-Keeps id =
      on_node-Keeps may_retry (retry_at disks) id λ i n rt. k.node_events rt i _ _ _ tt

  pub scheduler_skip_node-Keeps : (id : Str) → StepKeeps R (scheduler_skip_node disks id)
  unfolding scheduler_skip_node skip_at
  scheduler_skip_node-Keeps id =
      on_node-Keeps may_skip (skip_at disks) id λ i n rt. k.node_events rt i _ _ _ tt

  pub scheduler_approve_graph-Keeps : StepKeeps R (scheduler_approve_graph disks ex)
  unfolding scheduler_approve_graph
  scheduler_approve_graph-Keeps rt =
      if-Keeps k.order
        (not rt.graph.approval_required
          || rt.graph.approved
          || not (graph_state_eq rt.graph.state GraphState.validated)
          || not (ex.approval_receipt rt none))
        rt.graph _ _ (k.order.start rt.graph) (k.graph_events rt _ GraphState.ready _ _)

  grant_node-Keeps : (i : ℕ) (n : Node) → StepKeeps R (grant_node disks ex i n)
  unfolding grant_node
  grant_node-Keeps i n rt =
      if-Keeps k.order (not (ex.approval_receipt rt (some i)) || not (ex.attempt_result rt i))
        rt.graph _ _ (k.order.start rt.graph)
        (and_then-Keeps k.order rt.graph _ _ (k.node_events rt i _ _ _ tt) λ rt'.
          if-Keeps k.order (graph_state_eq rt'.graph.state GraphState.waiting_approval) rt'.graph _
            _ (k.graph_events rt' _ GraphState.running _ _) (k.order.start rt'.graph))

  pub scheduler_approve_node-Keeps : (id : Str) → StepKeeps R (scheduler_approve_node disks ex id)
  unfolding scheduler_approve_node
  scheduler_approve_node-Keeps id =
      on_node-Keeps awaits_approval (grant_node disks ex) id (grant_node-Keeps)

  reopen_gate-Keeps : (id : Str) (i : ℕ) → StepKeeps R (λ rt. reopen_gate disks id rt i)
  unfolding reopen_gate
  reopen_gate-Keeps id i = with_node-Keeps k.order i _ λ n rt.
      if-Keeps k.order (node_state_eq n.state NodeState.blocked && hangs_on id n.dependencies)
        rt.graph _ _ (set_node-Keeps k i _ NodeState.pending _ tt rt) (k.order.start rt.graph)

  reopen_goal-Keeps : (i : ℕ) (n : Node) → StepKeeps R (reopen_goal disks i n)
  unfolding reopen_goal
  reopen_goal-Keeps i n rt =
      if-Keeps k.order (not (node_state_eq n.state NodeState.failed)) rt.graph _ _
        (k.order.start rt.graph)
        (if-Keeps k.order (not (ltb n.attempts_started n.max_attempts)) rt.graph _ _
          (k.order.start rt.graph) (k.node_events rt i _ _ _ tt))

  reopen_gates-Keeps : (n : Node) → StepKeeps R (reopen_gates disks n)
  unfolding reopen_gates
  reopen_gates-Keeps n rt =
      if-Keeps k.order (node_state_eq n.state NodeState.pending) rt.graph _ _
        (each_node-Keeps k.order _ (reopen_gate-Keeps n.id) rt) (k.order.start rt.graph)

  prepare_goal-Keeps : (goal : Option (ℕ × Node)) → StepKeeps R (prepare_goal disks goal)
  unfolding prepare_goal
  prepare_goal-Keeps none rt = k.order.start rt.graph
  prepare_goal-Keeps (some (i, n)) rt =
      and_then-Keeps k.order rt.graph _ _ (reopen_goal-Keeps i n rt)
        (with_node-Keeps k.order i (reopen_gates disks) reopen_gates-Keeps)

  wake_node-Keeps : (i : ℕ) → StepKeeps R (λ rt. wake_node disks rt i)
  unfolding wake_node
  wake_node-Keeps i =
      with_node-Keeps k.order i _ λ n.
        when_state-Keeps k.order NodeState.paused _ n (set_node-Keeps k i _ NodeState.ready _ tt)

  resume_graph-Keeps : StepKeeps R (resume_graph disks)
  unfolding resume_graph
  resume_graph-Keeps rt =
      and_then-Keeps k.order rt.graph _ _ (k.graph_events rt _ GraphState.running _ _)
        (each_node-Keeps k.order _ wake_node-Keeps)

  pub scheduler_resume-Keeps : StepKeeps R (scheduler_resume disks ex)
  unfolding scheduler_resume
  scheduler_resume-Keeps rt =
      let goal = find_goal rt.graph.nodes in
      if-Keeps k.order
        (not (graph_state_eq rt.graph.state GraphState.paused)
            && not (goal_waiting goal rt.graph.state)
          || not (ex.context_preflight rt.graph))
        rt.graph _ _ (k.order.start rt.graph)
        (and_then-Keeps k.order rt.graph (prepare_goal disks goal rt) (resume_graph disks)
          (prepare_goal-Keeps goal rt) resume_graph-Keeps)
