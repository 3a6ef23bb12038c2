-- ===== src/Store/Replay/Restores/OfGraphs.antt =====
-- The store call about the graph, on every way its append may end.
use dstudio.Base.{
  ℕ, ◌+◌, ◌≤◌, refl, sym, ap, ◌∙◌, codes, str_eq, ◌≡◌, inl, inr, Bool, true, false, not, ◌&&◌, Str,
  some, Bool-cases, arith,
}
use dstudio.Graph.Types.{GraphState, Graph}
use dstudio.Graph.Transition.{graph_state_eq, graph_transition_allowed}
use dstudio.Store.Types.{Disk, Runtime}
use dstudio.Store.{count_call, graph_after, graph_event, store_graph_event}
use dstudio.Store.Replay.{event_apply, event_reads, log_limit, reset_graph}
use dstudio.Store.Replay.GraphEvents.{
  event_apply-graph_event, graph_may, move_graph-IsMoved, reported,
}
use dstudio.Store.Replay.Restores.{
  IsLogged, IsAtomic, commit-IsAtomic, failed-IsAtomic, refused-IsAtomic,
}

reset-graph_after :
    (g : Graph) (target : GraphState) (approved : Bool) (ts : ℕ)
    → graph_may g.state target ≡ true
    → reset_graph (graph_after g target approved ts) ≡ reset_graph g
unfolding graph_after reset_graph
reset-graph_after g target approved ts may =
    let (m, e, kept) = move_graph-IsMoved g target ts may in
    rw e (unfold reset_graph in kept.origin)

reset-reported :
    (type message : Str) (g : Graph) → reset_graph (reported type message g) ≡ reset_graph g
unfolding reset_graph
reset-reported type message g = elim (Bool-cases (str_eq type (codes "graph.failed"))) [
  | inl failed ↦ rw failed refl
  | inr other ↦ rw other refl
]

state-reported : (type message : Str) (g : Graph) → (reported type message g).state ≡ g.state
state-reported type message g = elim (Bool-cases (str_eq type (codes "graph.failed"))) [
  | inl failed ↦ rw failed refl
  | inr other ↦ rw other refl
]

event-reported :
    (type message : Str) (g : Graph) (target : GraphState) (approved : Bool) (ts : ℕ)
    → graph_event (reported type message g) type target approved message ts
      ≡ graph_event g type target approved message ts
unfolding graph_event
event-reported type message g target approved ts =
    elim (Bool-cases (str_eq type (codes "graph.failed"))) [
      | inl failed ↦ rw failed refl
      | inr other ↦ rw other refl
    ]

-- `g` is the graph of the log; in memory it may show the failure that the call reports.
module _ (disks : ℕ → Disk) (rt : Runtime) (g : Graph) (type : Str) (target : GraphState)
    (approved : Bool) (message : Str) (kept : IsLogged rt g)
    (same : rt.graph ≡ reported type message g) where
  abbrev after : Graph
  after = graph_after rt.graph target approved (disks rt.calls).clock

  origin : graph_may rt.graph.state target ≡ true → reset_graph after ≡ reset_graph g
  origin may =
      reset-graph_after rt.graph target approved (disks rt.calls).clock may
      ∙ ap reset_graph same
      ∙ reset-reported type message g

  applied_event :
      graph_may rt.graph.state target ≡ true
      → graph_state_eq target GraphState.state_invalid ≡ false
      → str_eq type (codes "graph.created") ≡ false
      → event_reads (graph_event g type target approved message (disks rt.calls).clock) ≡ true
      → event_apply (graph_event rt.graph type target approved message (disks rt.calls).clock) g
        ≡ some after
  applied_event may valid old reads =
      let ts = (disks rt.calls).clock in
      let state : rt.graph.state ≡ g.state =
        ap (λ h. h.state) same ∙ state-reported type message g in
      let may' : graph_may g.state target ≡ true = rw state at may in
      let event : graph_event rt.graph type target approved message ts
          ≡ graph_event g type target approved message ts =
        ap (λ h. graph_event h type target approved message ts) same
        ∙ event-reported type message g target approved ts in
      ap (λ x. event_apply x g) event
      ∙ event_apply-graph_event g type target approved message ts valid may' old reads
      ∙ ap (λ h. some (graph_after h target approved ts)) (sym same)

  allowed_call :
      graph_may rt.graph.state target ≡ true
      → rt.size + (disks rt.calls).bytes ≤ log_limit
      → event_apply (graph_event rt.graph type target approved message (disks rt.calls).clock) g
        ≡ some after
      → IsAtomic g after (store_graph_event disks rt type target approved message)
  unfolding store_graph_event
  allowed_call may fits applied =
      let open_door : (not (graph_state_eq target rt.graph.state)
            && not (graph_transition_allowed rt.graph.state target))
          ≡ false =
        ground arith in
      elim (Bool-cases (disks rt.calls).lock_free) [
        | inl free ↦
            rw (open_door, free)
              (commit-IsAtomic (count_call rt) g after _ (disks rt.calls).bytes
                (record { whole = kept.whole; logged = kept.logged }) applied fits _
                (disks rt.calls).append (origin may))
        | inr locked ↦ rw (open_door, locked) (failed-IsAtomic rt g after kept)
      ]

  refused_call :
      graph_may rt.graph.state target ≡ false
      → IsAtomic g after (store_graph_event disks rt type target approved message)
  unfolding store_graph_event
  refused_call refused =
      let shut : (not (graph_state_eq target rt.graph.state)
            && not (graph_transition_allowed rt.graph.state target))
          ≡ true =
        ground arith in
      rw shut (refused-IsAtomic rt g after kept)

-- A store call about the graph, to a valid state and not of type "graph.created", however its append
-- ends. Let the log end with a complete line and replay to a graph `g` that is the graph in memory,
-- except that before "graph.failed" memory already shows the message as its error; let the fields of
-- the event be within the bounds of replay, and the file within its limit behind the append. Then
-- replay of the log behind the call gives `g` or the graph that the call is to make; and where the
-- call succeeds, the latter is in memory, and the log again ends with a complete line and replays to
-- it.
pub store_graph_event-IsAtomic :
    (disks : ℕ → Disk) (rt : Runtime) (g : Graph) (type : Str) (target : GraphState)
    (approved : Bool) (message : Str)
    → graph_state_eq target GraphState.state_invalid ≡ false
    → str_eq type (codes "graph.created") ≡ false
    → event_reads (graph_event g type target approved message (disks rt.calls).clock) ≡ true
    → rt.size + (disks rt.calls).bytes ≤ log_limit
    → IsLogged rt g
    → rt.graph ≡ reported type message g
    → IsAtomic g
        (graph_after rt.graph target approved (disks rt.calls).clock)
        (store_graph_event disks rt type target approved message)
store_graph_event-IsAtomic disks rt g type target approved message valid old reads fits kept same =
    elim (Bool-cases (graph_may rt.graph.state target)) [
      | inl may ↦
          allowed_call disks rt g type target approved message kept same may fits
            (applied_event disks rt g type target approved message kept same may valid old reads)
      | inr refused ↦ refused_call disks rt g type target approved message kept same refused
    ]
