-- ===== src/Scheduler/Limits/Dispatch.antt =====
-- The dispatch loop of `dtg_scheduler_tick` in src/dstudio_task_scheduler.c keeps to the limits.
use dstudio.Base.{
  ℕ, ◌+◌, ◌≤◌, ◌≡◌, inl, inr, refl, Bool, true, false, not, List, [], ◌∷◌, some, ◌==◌, any,
  if◌then◌else◌, arith, Bool-cases, get_elem?,
}
use dstudio.Graph.Types.{NodeKind, Node, Graph}
use dstudio.Graph.Kinds.{kind_eq}
use dstudio.Store.Types.{Disk, Runtime}
use dstudio.Scheduler.Executor.{Executor}
use dstudio.Scheduler.Limits.{IsWithinLimits, KeepsWork, all_running, counts, running_nodes-Beside}
use dstudio.Scheduler.Limits.Attempt.{WorksAt, scheduler_dispatch-WorksAt}
use dstudio.Scheduler.Ready.{
  global_llm_busy, global_writer_busy, is_writer, may_dispatch, next_ready, running_nodes,
}
use dstudio.Scheduler.Ready.Choice.{next_ready-IsChoice}
use dstudio.Scheduler.Run.{scheduler_dispatch}

idle_count :
    (kind : NodeKind) (writers_only : Bool) (registry : List Graph)
    → any (λ g. not (running_nodes kind writers_only g.nodes == 0)) registry ≡ false
    → all_running kind writers_only registry ≡ 0
idle_count kind writers_only [] h = refl
idle_count kind writers_only (g ∷ registry) h =
    let rest = idle_count kind writers_only registry (ground arith) in
    let here : (running_nodes kind writers_only g.nodes == 0) ≡ true = ground arith in ground arith

idle_writers :
    (registry : List Graph)
    → global_writer_busy registry ≡ false
    → all_running NodeKind.kind_invalid true registry ≡ 0
unfolding global_writer_busy
idle_writers registry h = idle_count NodeKind.kind_invalid true registry h

idle_llm :
    (registry : List Graph)
    → global_llm_busy registry ≡ false
    → all_running NodeKind.agent_turn false registry ≡ 0
unfolding global_llm_busy
idle_llm registry h = idle_count NodeKind.agent_turn false registry h

-- The graphs that are watched have no more work of any sort than the others.
abbrev pub AreAmong : List Graph → List Graph → Type 0
AreAmong watched others =
    (kind : NodeKind) (writers_only : Bool)
    → all_running kind writers_only watched ≤ all_running kind writers_only others

pub all_among : (others : List Graph) → AreAmong others others
all_among others kind writers_only = omega arith

pub none_among : (others : List Graph) → AreAmong [] others
none_among others kind writers_only = omega arith

-- What a limit is for a sort of work: a node of that sort starts where there is none of it.
one_more :
    (c : Bool) (total others before after : ℕ)
    → total ≤ others
    → (c ≡ true → before + others ≡ 0)
    → before + total ≤ 1
    → after ≤ before + (if c then 1 else 0)
    → after + total ≤ 1
one_more true total others before after among idle most grown =
    let none_at_work = idle refl in omega arith
one_more false total others before after among idle most grown = omega arith

is_kind :
    (kind : NodeKind) (n : Node)
    → kind_eq kind NodeKind.kind_invalid ≡ false
    → counts kind false n ≡ true
    → kind_eq n.kind kind ≡ true
is_kind kind n sort h = ground arith

valid_kinds :
    (kind_eq NodeKind.agent_turn NodeKind.kind_invalid ≡ false)
    × (kind_eq NodeKind.host_tool NodeKind.kind_invalid ≡ false)
unfolding kind_eq
valid_kinds = (refl, refl)

-- A node that may be dispatched is worked at.
module _ (can_dispatch : Node → Bool) (g g' : Graph) (others watched : List Graph) (i : ℕ)
    (n : Node) (e : get_elem? g.nodes i ≡ some n)
    (may : may_dispatch can_dispatch (g ∷ others) g n ≡ true) (works : WorksAt i g g')
    (among : AreAmong watched others) where
  writers_within :
      all_running NodeKind.kind_invalid true (g ∷ watched) ≤ 1
      → all_running NodeKind.kind_invalid true (g' ∷ watched) ≤ 1
  unfolding may_dispatch kind_eq
  writers_within most =
      one_more (counts NodeKind.kind_invalid true n)
        (all_running NodeKind.kind_invalid true watched)
        (all_running NodeKind.kind_invalid true others)
        (running_nodes NodeKind.kind_invalid true g.nodes)
        (running_nodes NodeKind.kind_invalid true g'.nodes) (among NodeKind.kind_invalid true)
        (λ writes.
          idle_writers (g ∷ others) (let writer : is_writer n ≡ true = writes in ground arith))
        most (running_nodes-Beside NodeKind.kind_invalid true i g.nodes g'.nodes n e works.nodes)

  llm_turns_within :
      all_running NodeKind.agent_turn false (g ∷ watched) ≤ 1
      → all_running NodeKind.agent_turn false (g' ∷ watched) ≤ 1
  unfolding may_dispatch
  llm_turns_within most =
      one_more (counts NodeKind.agent_turn false n) (all_running NodeKind.agent_turn false watched)
        (all_running NodeKind.agent_turn false others)
        (running_nodes NodeKind.agent_turn false g.nodes)
        (running_nodes NodeKind.agent_turn false g'.nodes) (among NodeKind.agent_turn false)
        (λ turns.
          idle_llm (g ∷ others)
            (let turn = is_kind NodeKind.agent_turn n valid_kinds.0 turns in ground arith))
        most (running_nodes-Beside NodeKind.agent_turn false i g.nodes g'.nodes n e works.nodes)

  host_tools_within :
      running_nodes NodeKind.host_tool false g.nodes ≤ g.max_parallel_host_nodes
      → running_nodes NodeKind.host_tool false g'.nodes ≤ g'.max_parallel_host_nodes
  unfolding may_dispatch
  host_tools_within most =
      let grown =
        running_nodes-Beside NodeKind.host_tool false i g.nodes g'.nodes n e works.nodes in
      let limit = works.most in
      elim (Bool-cases (counts NodeKind.host_tool false n)) [
        | inl tool ↦
            let host = is_kind NodeKind.host_tool n valid_kinds.1 tool in
            let grown' = rw tool at grown in ground arith
        | inr other ↦ let grown' = rw other at grown in ground arith
      ]

  dispatched-IsWithinLimits : IsWithinLimits g watched → IsWithinLimits g' watched
  dispatched-IsWithinLimits within = record {
    llm_turns = llm_turns_within within.llm_turns;
    writers = writers_within within.writers;
    host_tools = host_tools_within within.host_tools;
  }

-- The node that is chosen among all the graphs in use.
pub chosen-IsWithinLimits :
    (disks : ℕ → Disk) (ex : Executor) (others watched : List Graph) (now : ℕ) (rt : Runtime)
    (i : ℕ) (n : Node)
    → KeepsWork ex
    → AreAmong watched others
    → next_ready ex.can_dispatch (rt.graph ∷ others) rt.graph ≡ some (i, n)
    → IsWithinLimits rt.graph watched
    → IsWithinLimits (scheduler_dispatch disks ex now rt i).1.graph watched
chosen-IsWithinLimits disks ex others watched now rt i n keeps among chosen =
    let choice = rw chosen at (next_ready-IsChoice ex.can_dispatch (rt.graph ∷ others) rt.graph) in
    dispatched-IsWithinLimits ex.can_dispatch rt.graph _ others watched i n choice.1.there
      choice.1.fit (scheduler_dispatch-WorksAt disks i ex now keeps rt) among
