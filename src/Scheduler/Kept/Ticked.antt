-- ===== src/Scheduler/Kept/Ticked.antt =====
-- A tick keeps what the store calls keep, with an executor that leaves the states alone.
use dstudio.Base.{ℕ, zero, suc, inl, inr, refl, true, false, List, ◌∷◌, Bool-cases, Option-cases}
use dstudio.Graph.Types.{Graph, GraphState, Node, NodeState}
use dstudio.Graph.Transition.{graph_state_eq}
use dstudio.Store.Types.{Disk, Runtime}
use dstudio.Scheduler.{each_node}
use dstudio.Scheduler.Executor.{Executor, Poll, poll_failed, at_work, finished}
use dstudio.Scheduler.Finalize.{finalize_graph}
use dstudio.Scheduler.Ready.{next_ready}
use dstudio.Scheduler.Run.{end_poll, finish_node, scheduler_dispatch}
use dstudio.Scheduler.Tick.{
  dispatch_loop, drain_node, init_node, interrupt, is_late, is_orphan, mark_orphan, poll_node,
  poll_running, scheduler_tick, stop_late, tick_dispatch, tick_pausing, tick_poll, tick_ready,
  tick_running,
}
use dstudio.Scheduler.Kept.{IsKept}
use dstudio.Scheduler.Kept.Loops.{
  and_then-Keeps, StepKeeps, each_node-Keeps, with_node-Keeps, when_state-Keeps, choose-Keeps,
}
use dstudio.Scheduler.Kept.{same_work}
use dstudio.Scheduler.Kept.Cancelled.{executor_cancel_at-Keeps, process_cancelling-Keeps}
use dstudio.Scheduler.Kept.Attempts.{
  close_attempt-Keeps, recompute_ready-Keeps, finalize_graph-Keeps, init_node-Keeps,
  settle_pause-Keeps,
}

module _ {R : Graph → Graph → Type 0} {disks : ℕ → Disk} {ex : Executor} {others : List Graph}
    (k : IsKept disks ex others R) where
  end_poll-Keeps : (i : ℕ) (p : Poll) → StepKeeps R (end_poll disks ex i p)
  unfolding end_poll
  end_poll-Keeps i poll_failed rt = k.order.start rt.graph
  end_poll-Keeps i at_work rt = k.order.start rt.graph
  end_poll-Keeps i (finished success) rt =
      and_then-Keeps k.order rt.graph _ _ (k.finishes rt i success)
        (with_node-Keeps k.order i _ (close_attempt-Keeps k ex.live i success))

  finish_node-Keeps : (now i : ℕ) → StepKeeps R (λ rt. finish_node disks ex now rt i)
  unfolding finish_node
  finish_node-Keeps now i rt =
      let polled = ex.poll rt i now in
      k.order.chain rt.graph polled.1.graph _ (k.polls rt i now)
        (end_poll-Keeps i polled.0 polled.1)

  mark_orphan-Keeps : (i : ℕ) (n : Node) (rt : Runtime) → R rt.graph (mark_orphan ex i n rt).graph
  unfolding mark_orphan
  mark_orphan-Keeps i n rt = elim (Bool-cases (is_orphan ex rt i n)) [
    | inl orphan ↦
        rw (mark_orphan, orphan) (k.notes interrupt i rt.graph (λ m. same_work m _ refl refl refl))
    | inr owned ↦ rw (mark_orphan, owned) (k.order.start rt.graph)
  ]

  stop_late-Keeps : (now i : ℕ) (n : Node) (rt : Runtime) → R rt.graph (stop_late now i n rt).graph
  unfolding stop_late
  stop_late-Keeps now i n rt = elim (Bool-cases (is_late now n)) [
    | inl late ↦ rw (stop_late, late) (executor_cancel_at-Keeps k i _ rt)
    | inr early ↦ rw (stop_late, early) (k.order.start rt.graph)
  ]

  poll_running-Keeps : (now i : ℕ) (n : Node) → StepKeeps R (poll_running disks ex now i n)
  unfolding poll_running
  poll_running-Keeps now i n rt =
      let marked = mark_orphan ex i n rt in
      let stopped = stop_late now i n marked in
      k.order.chain rt.graph marked.graph _ (mark_orphan-Keeps i n rt) (
        k.order.chain marked.graph stopped.graph _ (stop_late-Keeps now i n marked)
          (finish_node-Keeps now i stopped))

  poll_node-Keeps : (now i : ℕ) → StepKeeps R (λ rt. poll_node disks ex now rt i)
  unfolding poll_node
  poll_node-Keeps now i =
      with_node-Keeps k.order i _
        λ n. when_state-Keeps k.order NodeState.running _ n (poll_running-Keeps now i n)

  drain_node-Keeps : (now i : ℕ) → StepKeeps R (λ rt. drain_node disks ex now rt i)
  unfolding drain_node
  drain_node-Keeps now i =
      with_node-Keeps k.order i _
        λ n. when_state-Keeps k.order NodeState.running _ n (finish_node-Keeps now i)

  dispatch_loop-Keeps : (now budget : ℕ) → StepKeeps R (dispatch_loop disks ex others now budget)
  unfolding dispatch_loop
  dispatch_loop-Keeps now zero rt = k.order.start rt.graph
  dispatch_loop-Keeps now (suc budget) rt =
      elim (Option-cases (next_ready ex.can_dispatch (rt.graph ∷ others) rt.graph)) [
        | inl idle ↦ rw (dispatch_loop, idle) (k.order.start rt.graph)
        | inr ((i, n), chosen) ↦
            rw (dispatch_loop, chosen)
              (and_then-Keeps k.order rt.graph (scheduler_dispatch disks ex now rt i)
                (λ rt'. elim (graph_state_eq rt'.graph.state GraphState.running) [
                  | false ↦ (true, rt')
                  | true ↦ dispatch_loop disks ex others now budget rt'
                ])
                (k.dispatches now rt i n chosen)
                λ rt'. elim (Bool-cases (graph_state_eq rt'.graph.state GraphState.running)) [
                  | inl on ↦ rw on (dispatch_loop-Keeps now budget rt')
                  | inr off ↦ rw off (k.order.start rt'.graph)
                ])
      ]

  tick_dispatch-Keeps : (now : ℕ) → StepKeeps R (tick_dispatch disks ex others now)
  unfolding tick_dispatch
  tick_dispatch-Keeps now rt =
      and_then-Keeps k.order rt.graph _ (finalize_graph disks) (dispatch_loop-Keeps now 32 rt)
        (finalize_graph-Keeps k)

  tick_ready-Keeps : (now : ℕ) → StepKeeps R (tick_ready disks ex others now)
  unfolding tick_ready
  tick_ready-Keeps now rt =
      and_then-Keeps k.order rt.graph _ (tick_dispatch disks ex others now)
        (recompute_ready-Keeps k rt) (tick_dispatch-Keeps now)

  tick_poll-Keeps : (now : ℕ) → StepKeeps R (tick_poll disks ex others now)
  unfolding tick_poll
  tick_poll-Keeps now rt =
      and_then-Keeps k.order rt.graph (each_node (poll_node disks ex now) rt)
        (tick_ready disks ex others now) (each_node-Keeps k.order _ (poll_node-Keeps now) rt)
        (tick_ready-Keeps now)

  tick_running-Keeps : (now : ℕ) → StepKeeps R (tick_running disks ex others now)
  unfolding tick_running
  tick_running-Keeps now rt =
      and_then-Keeps k.order rt.graph (each_node (init_node disks) rt)
        (tick_poll disks ex others now) (each_node-Keeps k.order _ (init_node-Keeps k) rt)
        (tick_poll-Keeps now)

  tick_pausing-Keeps : (now : ℕ) (rt : Runtime) → R rt.graph (tick_pausing disks ex now rt).graph
  unfolding tick_pausing
  tick_pausing-Keeps now rt =
      let drained = (each_node (drain_node disks ex now) rt).1 in
      k.order.chain rt.graph drained.graph _ (each_node-Keeps k.order _ (drain_node-Keeps now) rt)
        (settle_pause-Keeps k drained)

  -- One turn of the scheduler.
  pub scheduler_tick-Keeps :
      (now : ℕ) (rt : Runtime) → R rt.graph (scheduler_tick disks ex others now rt).graph
  unfolding scheduler_tick
  scheduler_tick-Keeps now rt =
      let state = rt.graph.state in
      choose-Keeps k.order rt.corrupt rt.graph _ _ (k.order.start rt.graph) (
        choose-Keeps k.order (graph_state_eq state GraphState.cancelling) rt.graph _ _
          (process_cancelling-Keeps k rt)
          (choose-Keeps k.order (graph_state_eq state GraphState.pausing) rt.graph _ _
            (tick_pausing-Keeps now rt)
            (choose-Keeps k.order (graph_state_eq state GraphState.running) rt.graph _ _
              (tick_running-Keeps now rt) (k.order.start rt.graph))))
