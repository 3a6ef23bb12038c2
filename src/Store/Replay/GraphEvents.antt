-- ===== src/Store/Replay/GraphEvents.antt =====
-- What replay makes of the event that a store call about the graph appends.
use dstudio.Base.{
  cstr_copy, ℕ, suc, ◌≡◌, inl, inr, refl, sym, ap, ◌∙◌, Bool, true, false, not, ◌&&◌, ◌||◌, some,
  Str, codes, str_eq, eq_of_str_eq, str_eq_self, ◌==◌, arith, Bool-cases, ==_iff, if◌then◌else◌,
}
use dstudio.Graph.Types.{GraphState, Graph}
use dstudio.Graph.Names.{graph_state_name, graph_state_parse}
use dstudio.Graph.Names.RoundTrip.{graph_state_parse-name}
use dstudio.Graph.Transition.{
  graph_state_eq, graph_transition_allowed, graph_enter, transition_graph_raw,
}
use dstudio.Store.Types.{Event}
use dstudio.Store.{move_graph, graph_event, graph_after}
use dstudio.Store.Replay.{
  event_reads, event_graph_allowed, event_continues, event_apply, event_node, apply_graph,
  reset_graph,
}

-- A step that the store makes: to a proper state, allowed by the table.
abbrev pub graph_may : GraphState → GraphState → Bool
graph_may from target = graph_state_eq target from || graph_transition_allowed from target

-- The graph behind an allowed step: its identity, creation time and error are as before.
pub record IsMoved (g m : Graph) : Type 0 where
  pub created : m.created_ms ≡ g.created_ms
  pub failure : m.error ≡ g.error
  pub origin : reset_graph m ≡ reset_graph g

pub move_graph-IsMoved :
    (g : Graph) (target : GraphState) (ts : ℕ)
    → graph_may g.state target ≡ true
    → (m : Graph) × (move_graph g target ts ≡ some m) × IsMoved g m
unfolding move_graph transition_graph_raw graph_enter reset_graph
move_graph-IsMoved g target ts may = elim (Bool-cases (graph_state_eq target g.state)) [
  | inl stay ↦ (
    record g { updated_ms = ts },
    rw stay refl,
    record { created = refl; failure = refl; origin = refl },
  )
  | inr step ↦
      let allowed : graph_transition_allowed g.state target ≡ true = ground arith in
      (
        graph_enter target ts g,
        rw (step, allowed) refl,
        record { created = refl; failure = refl; origin = refl },
      )
]

pub self-== : (a : ℕ) → (a == a) ≡ true
self-== a = (==_iff a a).1 refl

-- The message of a failure is the error that the graph already shows.
abbrev pub reports : Str → Str → Graph → Bool
reports type message g =
    not (str_eq type (codes "graph.created"))
    && (not (str_eq type (codes "graph.failed")) || str_eq (cstr_copy 511 message) g.error)

-- An event with the graph's identity and the next number continues its log.
pub continues_next :
    (e : Event) (g : Graph) (target : GraphState)
    → event_reads e ≡ true
    → e.seq ≡ suc g.last_event_seq
    → e.graph_id ≡ g.id
    → e.revision ≡ g.revision
    → e.graph_state ≡ graph_state_name target
    → graph_state_eq target GraphState.state_invalid ≡ false
    → graph_may g.state target ≡ true
    → event_continues e g ≡ true
unfolding event_continues event_graph_allowed
continues_next e g target reads seq id revision name valid may =
    rw
      (
        reads,
        seq,
        id,
        revision,
        name,
        graph_state_parse-name target,
        valid,
        may,
        self-== (suc g.last_event_seq),
        self-== g.revision,
        str_eq_self g.id,
      )
      refl

-- The graph's part of an event of type `type` that moves it to `target`.
pub apply_graph-moved :
    (e : Event) (g m : Graph) (target : GraphState)
    → e.graph_state ≡ graph_state_name target
    → move_graph g target e.ts ≡ some m
    → IsMoved g m
    → reports e.type e.message g ≡ true
    → apply_graph e g ≡ some (record m { approved = e.approved; last_event_seq = e.seq })
unfolding apply_graph
apply_graph-moved e g m target name moved kept quiet =
    let parsed : graph_state_parse e.graph_state ≡ target =
      ap graph_state_parse name ∙ graph_state_parse-name target in
    rw (apply_graph, parsed, moved)
      (elim (Bool-cases (str_eq e.type (codes "graph.failed"))) [
        | inl failed ↦
            let same : cstr_copy 511 e.message ≡ m.error =
              eq_of_str_eq _ _ (ground arith) ∙ sym kept.failure in
            let old : str_eq e.type (codes "graph.created") ≡ false = ground arith in
            rw (old, failed, same) refl
        | inr other ↦
            let old : str_eq e.type (codes "graph.created") ≡ false = ground arith in
            rw (old, other) refl
      ])

-- The scheduler sets the error before the call that reports a failure.
abbrev pub with_error : Str → Graph → Graph
with_error message g = record g { error = cstr_copy 511 message }

abbrev pub reported : Str → Str → Graph → Graph
reported type message g = if str_eq type (codes "graph.failed") then with_error message g else g

move_graph-with_error :
    (g m : Graph) (target : GraphState) (ts : ℕ) (message : Str)
    → graph_may g.state target ≡ true
    → move_graph g target ts ≡ some m
    → move_graph (with_error message g) target ts ≡ some (with_error message m)
unfolding move_graph transition_graph_raw graph_enter
move_graph-with_error g m target ts message may moved =
    elim (Bool-cases (graph_state_eq target g.state)) [
      | inl stay ↦
          let e : some (record g { updated_ms = ts }) ≡ some m = rw stay at moved in
          let same : record g { updated_ms = ts } ≡ m = cc in rw (stay, ← same) refl
      | inr step ↦
          let allowed : graph_transition_allowed g.state target ≡ true = ground arith in
          let e : some (graph_enter target ts g) ≡ some m = rw (step, allowed) at moved in
          let same : graph_enter target ts g ≡ m = cc in rw (step, allowed, ← same) refl
    ]

apply_graph-failed :
    (e : Event) (g m : Graph) (target : GraphState)
    → e.graph_state ≡ graph_state_name target
    → move_graph g target e.ts ≡ some m
    → str_eq e.type (codes "graph.created") ≡ false
    → str_eq e.type (codes "graph.failed") ≡ true
    → apply_graph e g
      ≡ some (record (with_error e.message m) { approved = e.approved; last_event_seq = e.seq })
unfolding apply_graph
apply_graph-failed e g m target name moved old failed =
    let parsed : graph_state_parse e.graph_state ≡ target =
      ap graph_state_parse name ∙ graph_state_parse-name target in
    rw (apply_graph, parsed, moved, old, failed) refl

-- Replay of the event on the graph of the log gives the graph in memory behind the call.
pub event_apply-graph_event :
    (g : Graph) (type : Str) (target : GraphState) (approved : Bool) (message : Str) (ts : ℕ)
    → graph_state_eq target GraphState.state_invalid ≡ false
    → graph_may g.state target ≡ true
    → str_eq type (codes "graph.created") ≡ false
    → event_reads (graph_event g type target approved message ts) ≡ true
    → event_apply (graph_event g type target approved message ts) g
      ≡ some (graph_after (reported type message g) target approved ts)
unfolding event_apply event_node graph_event graph_after
event_apply-graph_event g type target approved message ts valid may old reads =
    let (m, e, kept) = move_graph-IsMoved g target ts may in
    let event = graph_event g type target approved message ts in
    let next = continues_next event g target reads refl refl refl refl valid may in
    elim (Bool-cases (str_eq type (codes "graph.failed"))) [
      | inl failed ↦
          let applied = apply_graph-failed event g m target refl e old failed in
          let moved = move_graph-with_error g m target ts message may e in
          rw (next, applied, failed, moved) refl
      | inr other ↦
          let quiet : reports type message g ≡ true = ground arith in
          let applied = apply_graph-moved event g m target refl e kept quiet in
          rw (next, applied, other, e) refl
    ]
