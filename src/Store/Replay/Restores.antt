-- ===== src/Store/Replay/Restores.antt =====
-- What a store call of src/dstudio_task_store.c leaves for the replay of its log.
pub mod OfGraphs
pub mod OfNodes
use dstudio.Base.{
  ℕ, ◌+◌, ◌≤◌, leb, arith, sym, ◌∙◌, if◌then◌else◌, ◌≡◌, ◌⊎◌, inl, inr, refl, Option-cases, Bool,
  true, false, List, [], ◌∷◌, ◌++◌, Option, some, none,
}
use dstudio.Graph.Types.{Graph}
use dstudio.Store.Types.{
  Event, Line, written, garbled, Runtime, Append, unopened, torn, injected, appended,
}
use dstudio.Store.{write_line, append_event, commit, count_call}
use dstudio.Store.Replay.{event_apply, apply_lines, log_limit, replay_events, reset_graph}

-- The file is read whole, ends with a complete line, and its replay gives the graph `g`.
pub record IsLogged (rt : Runtime) (g : Graph) : Type 0 where
  pub whole : rt.ragged ≡ false
  pub logged : replay_events rt.size rt.lines g ≡ some g

-- Replay gives the graph in memory.
abbrev pub IsRestored : Runtime → Type 0
IsRestored rt = IsLogged rt rt.graph

-- Replay gives the graph before a call or the one behind it.
abbrev pub Survives : Graph → Graph → Runtime → Type 0
Survives g g' rt =
    (replay_events rt.size rt.lines g ≡ some g) ⊎ (replay_events rt.size rt.lines g ≡ some g')

-- The outcome of a call that would move the log from the graph `g` to `g'`.
pub record IsAtomic (g g' : Graph) (result : Bool × Runtime) : Type 0 where
  pub survives : Survives g g' result.1
  pub in_step : result.0 ≡ true → (result.1.graph ≡ g') × IsRestored result.1

apply_lines-append :
    (lines : List Line) (g h h' : Graph) (e : Event)
    → apply_lines lines g ≡ some h
    → event_apply e h ≡ some h'
    → apply_lines (lines ++ written e ∷ []) g ≡ some h'
unfolding apply_lines
apply_lines-append [] g h h' e done applied =
    let here : event_apply e g ≡ some h' = cc in rw (apply_lines, here) refl
apply_lines-append (garbled ∷ lines) g h h' e done applied = cc
apply_lines-append (written d ∷ lines) g h h' e done applied =
    elim (Option-cases (event_apply d g)) [
      | inl bad ↦ let refused = rw (apply_lines, bad) at done in cc
      | inr (m, good) ↦
          rw (apply_lines, good)
            (apply_lines-append lines m h h' e (rw (apply_lines, good) at done) applied)
    ]

replay_events-fits :
    (size : ℕ) (lines : List Line) (g : Graph)
    → size ≤ log_limit
    → replay_events size lines g ≡ apply_lines lines (reset_graph g)
unfolding replay_events
replay_events-fits size lines g fits =
    let read : leb size log_limit ≡ true = ground arith in rw (replay_events, read) refl

-- The next event is appended in `bytes` bytes that still fit.
module _ (rt : Runtime) (g g' : Graph) (e : Event) (bytes : ℕ) (kept : IsLogged rt g)
    (applied : event_apply e g ≡ some g') (fits : rt.size + bytes ≤ log_limit) where
  before : apply_lines rt.lines (reset_graph g) ≡ some g
  before = sym (replay_events-fits rt.size rt.lines g (omega arith)) ∙ kept.logged

  behind : apply_lines (rt.lines ++ written e ∷ []) (reset_graph g) ≡ some g'
  behind = apply_lines-append rt.lines (reset_graph g) g g' e before applied

  replay-write_line : (whole : Bool) → Survives g g' (write_line whole bytes e rt)
  unfolding write_line
  replay-write_line true =
      inr (replay_events-fits (rt.size + bytes) _ g fits ∙ rw kept.whole behind)
  replay-write_line false = inl (replay_events-fits (rt.size + bytes) rt.lines g fits ∙ before)

  -- The runtime that takes the event it has appended.
  write_line-IsRestored :
      reset_graph g' ≡ reset_graph g
      → IsRestored (record (write_line true bytes e rt) { graph = g' })
  unfolding write_line
  write_line-IsRestored origin = record {
    whole = refl;
    logged = replay_events-fits (rt.size + bytes) _ g' fits ∙ rw (kept.whole, origin) behind;
  }

  -- The memory takes the event only where the append succeeds.
  pub commit-IsAtomic :
      (done : Bool) (a : Append)
      → reset_graph g' ≡ reset_graph g
      → IsAtomic g g' (commit done g' (append_event a bytes e rt))
  unfolding commit append_event
  commit-IsAtomic done unopened origin = record { survives = inl kept.logged; in_step = λ h. cc }
  commit-IsAtomic done (torn whole) origin = record {
    survives = replay-write_line whole;
    in_step = λ h. cc;
  }
  commit-IsAtomic done injected origin = record {
    survives = replay-write_line true;
    in_step = λ h. cc;
  }
  commit-IsAtomic done appended origin = record {
    survives = unfold write_line in replay-write_line true;
    in_step = λ h. (refl, write_line-IsRestored origin);
  }

module _ (rt : Runtime) (g g' : Graph) (kept : IsLogged rt g) where
  pub failed-IsAtomic : IsAtomic g g' (false, count_call rt)
  failed-IsAtomic = record { survives = inl kept.logged; in_step = λ h. cc }

  pub refused-IsAtomic : IsAtomic g g' (false, rt)
  refused-IsAtomic = record { survives = inl kept.logged; in_step = λ h. cc }
