-- ===== src/Scheduler/Limits/Registry.antt =====
-- The limits on parallel work hold over all the runtimes in use of src/dstudio_task_scheduler.c.
use dstudio.Base.{
  ℕ, zero, suc, ◌+◌, ◌≤◌, ◌≡◌, inl, inr, refl, sym, ap, subst, List, [], ◌∷◌, ◌++◌, All, some,
  Option-cases, arith, append-nil, append_assoc, Bool, true, false, get_elem?, length, set,
}
use dstudio.Graph.Types.{NodeKind}
use dstudio.Store.Types.{Disk, Runtime}
use dstudio.Scheduler.Executor.{Executor}
use dstudio.Scheduler.Kept.Histories.{take_command-Keeps}
use dstudio.Scheduler.Kept.Ticked.{scheduler_tick-Keeps}
use dstudio.Scheduler.Limits.{IsWithinLimits, KeepsWork, all_running}
use dstudio.Scheduler.Limits.Dispatch.{all_among}
use dstudio.Scheduler.Limits.Histories.{StaysWithin, StaysWithin-IsKept}
use dstudio.Scheduler.Ready.{running_nodes}
use dstudio.Scheduler.Tick.{scheduler_tick}
use dstudio.Scheduler.Turns.{
  Turn, commanded, graphs, registry_tick, take_turn, take_turns, tick_from, ticked,
}

-- Over all the runtimes in use no more than one agent's turn and one writer is at work, and in each
-- graph no more host tools than it admits.
pub record AreWithinLimits (registry : List Runtime) : Type 0 where
  pub llm_turns : all_running NodeKind.agent_turn false (graphs registry) ≤ 1
  pub writers : all_running NodeKind.kind_invalid true (graphs registry) ≤ 1
  pub host_tools :
      All
        (λ rt.
          running_nodes NodeKind.host_tool false rt.graph.nodes ≤ rt.graph.max_parallel_host_nodes)
        registry

-- The work of one runtime apart from that of the others.
all_running-apart :
    (kind : NodeKind) (writers_only : Bool) (front back : List Runtime) (rt : Runtime)
    → all_running kind writers_only (graphs (front ++ rt ∷ back))
      ≡ running_nodes kind writers_only rt.graph.nodes
        + all_running kind writers_only (graphs (front ++ back))
all_running-apart kind writers_only [] back rt = refl
all_running-apart kind writers_only (x ∷ front) back rt =
    let rest = all_running-apart kind writers_only front back rt in omega (arith, rest)

All-middle :
    (P : Runtime → Type 0) (front back : List Runtime) (rt rt' : Runtime)
    → All P (front ++ rt ∷ back)
    → P rt × (P rt' → All P (front ++ rt' ∷ back))
All-middle P [] back rt rt' held = (held.0, λ now. (now, held.1))
All-middle P (x ∷ front) back rt rt' held =
    let (here, rest) = All-middle P front back rt rt' held.1 in (here, λ now. (held.0, rest now))

-- A runtime is replaced by one that stays within the limits among the others.
replaced-AreWithinLimits :
    (front back : List Runtime) (rt rt' : Runtime)
    → StaysWithin (graphs (front ++ back)) rt.graph rt'.graph
    → AreWithinLimits (front ++ rt ∷ back)
    → AreWithinLimits (front ++ rt' ∷ back)
replaced-AreWithinLimits front back rt rt' stays held =
    let (here, rest) =
      All-middle
        (λ rt.
          running_nodes NodeKind.host_tool false rt.graph.nodes ≤ rt.graph.max_parallel_host_nodes)
        front back rt rt' held.host_tools in
    let llm = all_running-apart NodeKind.agent_turn false front back in
    let writers = all_running-apart NodeKind.kind_invalid true front back in
    let within : IsWithinLimits rt'.graph (graphs (front ++ back)) = stays (record {
      llm_turns = omega (arith, llm rt, held.llm_turns);
      writers = omega (arith, writers rt, held.writers);
      host_tools = here;
    }) in
    record {
      llm_turns = omega (arith, llm rt', within.llm_turns);
      writers = omega (arith, writers rt', within.writers);
      host_tools = rest within.host_tools;
    }

-- The runtime at an index, and those around it.
around :
    (registry : List Runtime) (r : ℕ) (rt : Runtime)
    → get_elem? registry r ≡ some rt
    → (front : List Runtime) × (back : List Runtime) × (registry ≡ front ++ rt ∷ back)
      × ((rt' : Runtime) → set registry r rt' ≡ front ++ rt' ∷ back)
around [] r rt e = cc
around (x ∷ registry) zero rt e =
    let same : x ≡ rt = cc in ([], registry, ap (λ y. y ∷ registry) same, λ rt'. refl)
around (x ∷ registry) (suc r) rt e =
    let (front, back, whole, changed) = around registry r rt e in
    (x ∷ front, back, ap (λ ys. x ∷ ys) whole, λ rt'. ap (λ ys. x ∷ ys) (changed rt'))

module _ (disks : ℕ → ℕ → Disk) (ex : Executor) (keeps : KeepsWork ex) where
  tick_from-AreWithinLimits :
      (now : ℕ) (done todo : List Runtime)
      → AreWithinLimits (done ++ todo)
      → AreWithinLimits (tick_from disks ex now done todo)
  unfolding tick_from
  tick_from-AreWithinLimits now done [] held = subst AreWithinLimits (append-nil done) held
  tick_from-AreWithinLimits now done (rt ∷ todo) held =
      let others = graphs (done ++ todo) in
      let disk = disks (length done) in
      let rt' = scheduler_tick disk ex others now rt in
      let stays =
        scheduler_tick-Keeps (StaysWithin-IsKept disk ex keeps others others (all_among others)) now
          rt in
      let held' = replaced-AreWithinLimits done todo rt rt' stays held in
      tick_from-AreWithinLimits now (done ++ rt' ∷ []) todo
        (subst AreWithinLimits (sym (append_assoc done (rt' ∷ []) todo)) held')

  take_turn-AreWithinLimits :
      (t : Turn) (registry : List Runtime)
      → AreWithinLimits registry
      → AreWithinLimits (take_turn disks ex t registry)
  unfolding take_turn registry_tick
  take_turn-AreWithinLimits (ticked now) registry held =
      tick_from-AreWithinLimits now [] registry held
  take_turn-AreWithinLimits (commanded r c) registry held =
      elim (Option-cases (get_elem? registry r)) [
        | inl missing ↦ rw (take_turn, missing) held
        | inr (rt, e) ↦
            let (front, back, whole, changed) = around registry r rt e in
            let others = graphs (front ++ back) in
            let stays =
              take_command-Keeps
                (StaysWithin-IsKept (disks r) ex keeps others others (all_among others)) c rt in
            let held' = subst AreWithinLimits whole held in
            rw (take_turn, e)
              (subst AreWithinLimits (sym (changed _))
                (replaced-AreWithinLimits front back rt _ stays held'))
      ]

-- Through commands to any of the runtimes in use and ticks of all of them, in any order and
-- whatever the disks answer, there are never two agents' turns or two writers at work over all their
-- graphs, nor more host tools in a graph than it admits; where that is so at first, and the executor
-- changes no node's kind, mutation class or state and not a graph's limit.
pub take_turns-AreWithinLimits :
    (disks : ℕ → ℕ → Disk) (ex : Executor) (turns : List Turn) (registry : List Runtime)
    → KeepsWork ex
    → AreWithinLimits registry
    → AreWithinLimits (take_turns disks ex turns registry)
unfolding take_turns
take_turns-AreWithinLimits disks ex [] registry keeps held = held
take_turns-AreWithinLimits disks ex (t ∷ turns) registry keeps held =
    take_turns-AreWithinLimits disks ex turns (take_turn disks ex t registry) keeps
      (take_turn-AreWithinLimits disks ex keeps t registry held)
