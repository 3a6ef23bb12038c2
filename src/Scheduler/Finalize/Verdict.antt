-- ===== src/Scheduler/Finalize/Verdict.antt =====
-- What becomes of a running graph.
use dstudio.Base.{
  ◌⊎◌, sym, subst, Bool, some, false, not, ◌&&◌, ◌||◌, arith, get_elem?, any-true, any-false,
  All-at, ◌≡◌, inl, inr, refl, ap, ◌∙◌, ℕ, true, List, if◌then◌else◌, Bool-cases,
}
use dstudio.Graph.Types.{GraphState, NodeState, Node}
use dstudio.Graph.Transition.{
  graph_state_eq, graph_transition_allowed, node_state_eq, node_terminal,
}
use dstudio.Store.Types.{Disk, Runtime}
use dstudio.Store.Replay.GraphEvents.{graph_may}
use dstudio.Scheduler.Healthy.{IsHealthy, IsEntered, store_graph_event-IsEntered}
use dstudio.Scheduler.Finalize.{failure_message, finalize_graph, required_failure, unfinished}

abbrev verdict : List Node → GraphState
verdict nodes =
    if required_failure nodes
    then GraphState.failed
    else if unfinished nodes
    then GraphState.running
    else GraphState.succeeded

-- A node that is not optional failed, was cancelled or is blocked.
pub record Fails (nodes : List Node) : Type 0 where
  pub index : ℕ
  pub node : Node
  pub there : get_elem? nodes index ≡ some node
  pub required : node.optional ≡ false
  pub lost :
      (node.state ≡ NodeState.failed)
      ⊎ ((node.state ≡ NodeState.cancelled) ⊎ (node.state ≡ NodeState.blocked))

-- A node has come to its end.
abbrev pub IsOver : NodeState → Type 0
IsOver s =
    (s ≡ NodeState.succeeded)
    ⊎ ((s ≡ NodeState.failed) ⊎ ((s ≡ NodeState.cancelled) ⊎ (s ≡ NodeState.skipped)))

-- Every node has come to its end.
abbrev pub AreOver : List Node → Type 0
AreOver nodes = (i : ℕ) (n : Node) → get_elem? nodes i ≡ some n → IsOver n.state

-- The state in which a running graph is left.
pub record IsJudged (nodes : List Node) (s : GraphState) : Type 0 where
  pub fails : Fails nodes → s ≡ GraphState.failed
  pub succeeds : (Fails nodes → ⊥) → AreOver nodes → s ≡ GraphState.succeeded
  pub goes_on : (Fails nodes → ⊥) → (AreOver nodes → ⊥) → s ≡ GraphState.running

abbrev lost_state : NodeState → Bool
lost_state s =
    node_state_eq s NodeState.failed
    || node_state_eq s NodeState.cancelled
    || node_state_eq s NodeState.blocked

lost_sound :
    (s : NodeState)
    → lost_state s ≡ true
    → (s ≡ NodeState.failed) ⊎ ((s ≡ NodeState.cancelled) ⊎ (s ≡ NodeState.blocked))
unfolding node_state_eq
lost_sound NodeState.failed h = inl refl
lost_sound NodeState.cancelled h = inr (inl refl)
lost_sound NodeState.blocked h = inr (inr refl)
lost_sound _ h = cc

lost_complete :
    (s : NodeState)
    → (s ≡ NodeState.failed) ⊎ ((s ≡ NodeState.cancelled) ⊎ (s ≡ NodeState.blocked))
    → lost_state s ≡ true
unfolding node_state_eq
lost_complete s (inl e) = rw e refl
lost_complete s (inr (inl e)) = rw e refl
lost_complete s (inr (inr e)) = rw e refl

IsOver-sound : (s : NodeState) → node_terminal s ≡ true → IsOver s
unfolding node_terminal
IsOver-sound NodeState.succeeded h = inl refl
IsOver-sound NodeState.failed h = inr (inl refl)
IsOver-sound NodeState.cancelled h = inr (inr (inl refl))
IsOver-sound NodeState.skipped h = inr (inr (inr refl))
IsOver-sound _ h = cc

IsOver-complete : (s : NodeState) → IsOver s → node_terminal s ≡ true
unfolding node_terminal
IsOver-complete s (inl e) = rw e refl
IsOver-complete s (inr (inl e)) = rw e refl
IsOver-complete s (inr (inr (inl e))) = rw e refl
IsOver-complete s (inr (inr (inr e))) = rw e refl

required_failure_sound : (nodes : List Node) → required_failure nodes ≡ true → Fails nodes
required_failure_sound nodes h =
    let (i, n, e, hit) = any-true _ nodes h in
    record {
      index = i;
      node = n;
      there = e;
      required = ground arith;
      lost = lost_sound n.state (ground arith);
    }

required_failure_complete : (nodes : List Node) → Fails nodes → required_failure nodes ≡ true
required_failure_complete nodes f = elim (Bool-cases (required_failure nodes)) [
  | inl hit ↦ hit
  | inr miss ↦
      let quiet = All-at _ nodes f.index f.node (any-false _ nodes miss) f.there in
      let lost = lost_complete f.node.state f.lost in
      let required = f.required in absurd (bad quiet lost required)
]
  where
    bad :
        (not f.node.optional && lost_state f.node.state) ≡ false
        → lost_state f.node.state ≡ true
        → f.node.optional ≡ false
        → ⊥
    bad quiet lost required = ground arith

over_of_finished : (nodes : List Node) → unfinished nodes ≡ false → AreOver nodes
over_of_finished nodes h i n e =
    let done = All-at _ nodes i n (any-false _ nodes h) e in IsOver-sound n.state (ground arith)

not_over : (nodes : List Node) → unfinished nodes ≡ true → AreOver nodes → ⊥
not_over nodes h over =
    let (i, n, e, hit) = any-true _ nodes h in
    let done = IsOver-complete n.state (over i n e) in going n.state hit done
  where
    going : (s : NodeState) → not (node_terminal s) ≡ true → node_terminal s ≡ true → ⊥
    going s hit done = ground arith

verdict-IsJudged : (nodes : List Node) → IsJudged nodes (verdict nodes)
verdict-IsJudged nodes = elim (Bool-cases (required_failure nodes)) [
  | inl bad ↦
      let found = required_failure_sound nodes bad in
      rw (verdict, bad)
        (record {
          fails = λ f. refl;
          succeeds = λ none' over. absurd (none' found);
          goes_on = λ none' more. absurd (none' found);
        })
  | inr good ↦
      let none_lost : Fails nodes → ⊥ = λ f. let hit = required_failure_complete nodes f in cc in
      elim (Bool-cases (unfinished nodes)) [
        | inl more ↦
            rw (verdict, good, more)
              (record {
                fails = λ f. absurd (none_lost f);
                succeeds = λ none' over. absurd (not_over nodes more over);
                goes_on = λ none' going. refl;
              })
        | inr done ↦
            rw (verdict, good, done)
              (record {
                fails = λ f. absurd (none_lost f);
                succeeds = λ none' over. refl;
                goes_on = λ none' going. absurd (going (over_of_finished nodes done));
              })
      ]
]

running_may :
    (graph_may GraphState.running GraphState.failed ≡ true)
    × (graph_may GraphState.running GraphState.succeeded ≡ true)
    × (graph_state_eq GraphState.running GraphState.running ≡ true)
unfolding graph_state_eq graph_transition_allowed
running_may = (refl, refl, refl)

finalize_graph-verdict :
    (disks : ℕ → Disk) (rt : Runtime)
    → IsHealthy disks
    → rt.graph.state ≡ GraphState.running
    → IsEntered rt (verdict rt.graph.nodes) (finalize_graph disks rt)
unfolding finalize_graph
finalize_graph-verdict disks rt healthy running =
    let is_running : graph_state_eq rt.graph.state GraphState.running ≡ true =
      ap (λ s. graph_state_eq s GraphState.running) running ∙ running_may.2 in
    elim (Bool-cases (required_failure rt.graph.nodes)) [
      | inl bad ↦
          let rt' = record rt { graph = record rt.graph { error = failure_message } } in
          let may : graph_may rt.graph.state GraphState.failed ≡ true =
            ap (λ s. graph_may s GraphState.failed) running ∙ running_may.0 in
          let r =
            store_graph_event-IsEntered disks rt' _ GraphState.failed rt.graph.approved
              failure_message healthy may in
          rw (finalize_graph, bad, is_running)
            (record { done = r.done; entered = r.entered; nodes = r.nodes })
      | inr good ↦ elim (Bool-cases (unfinished rt.graph.nodes)) [
        | inl more ↦
            rw (finalize_graph, good, more)
              (record { done = refl; entered = running; nodes = refl })
        | inr all_done ↦
            let may : graph_may rt.graph.state GraphState.succeeded ≡ true =
              ap (λ s. graph_may s GraphState.succeeded) running ∙ running_may.1 in
            rw (finalize_graph, good, all_done, is_running)
              (store_graph_event-IsEntered disks rt _ GraphState.succeeded rt.graph.approved _
                healthy may)
      ]
    ]

-- On disks on which every store call succeeds, finalizing a running graph succeeds and leaves its
-- nodes. The graph fails if a node that is not optional failed, was cancelled or is blocked; if
-- there is none, it succeeds where every node succeeded, failed, was cancelled or was skipped, and
-- stays running otherwise.
pub finalize_graph-IsJudged :
    (disks : ℕ → Disk) (rt : Runtime)
    → IsHealthy disks
    → rt.graph.state ≡ GraphState.running
    → ((finalize_graph disks rt).0 ≡ true)
      × IsJudged rt.graph.nodes (finalize_graph disks rt).1.graph.state
      × ((finalize_graph disks rt).1.graph.nodes ≡ rt.graph.nodes)
finalize_graph-IsJudged disks rt healthy running =
    let r = finalize_graph-verdict disks rt healthy running in
    (
      r.done,
      subst (IsJudged rt.graph.nodes) (sym r.entered) (verdict-IsJudged rt.graph.nodes),
      r.nodes,
    )
