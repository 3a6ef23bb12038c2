-- ===== src/Examples/Histories.antt =====
-- The theorems about ticks and histories of a runtime at concrete inputs.
use dstudio.Base.{arith, List, ◌≡◌, refl, true, false, [], ◌∷◌, codes}
use dstudio.Graph.Types.{GraphState}
use dstudio.Graph.Transition.{graph_terminal, node_state_eq}
use dstudio.Store.Types.{Runtime}
use dstudio.Scheduler.Executor.{begun, finished, Executor, IsCareful, SameStates}
use dstudio.Scheduler.History.{skip, command, Step, cancel, history, retry, tick}
use dstudio.Scheduler.Walks.{Walks}
use dstudio.Scheduler.Walks.Histories.{history-Walks, history-terminal}
use dstudio.Examples.Schedules.{at_work, disks, failed_graph, runtime, waiting}
use dstudio.Scheduler.Limits.{AllSameWork-refl, IsWithinLimits, KeepsWork, SameLoad}
use dstudio.Scheduler.Limits.Histories.{history-IsWithinLimits}
use dstudio.Scheduler.Ready.{is_running, running_nodes}
use dstudio.Graph.Kinds.{kind_eq, mutation_eq}
use dstudio.Scheduler.Limits.Registry.{AreWithinLimits, take_turns-AreWithinLimits}
use dstudio.Scheduler.Turns.{Turn, commanded, take_turns, ticked}

-- An executor whose attempts succeed at once, and leave no trace.
abbrev eager : Executor
eager = record {
  can_dispatch = λ n. true;
  begin = λ rt i now. (begun (codes "attempt") 7 now, rt);
  poll = λ rt i now. (finished true, rt);
  finish = λ rt i ok. (true, rt);
  graph_available = λ g. true;
  context_preflight = λ g. true;
  approval_receipt = λ rt node. true;
  attempt_result = λ rt i. true;
  live = true;
  owns = λ rt i. false;
}

same_states : (rt : Runtime) → SameStates rt rt
same_states rt = record { graph_state = refl; nodes = λ j n e. (n, e, refl) }

eager-IsCareful : IsCareful eager
eager-IsCareful = record {
  begin_states = λ rt i now. same_states rt;
  poll_states = λ rt i now. same_states rt;
  finish_states = λ rt i ok. same_states rt;
}

abbrev some_steps : List Step
some_steps = tick [] 5000 ∷ command (retry (codes "write")) ∷ tick [] 6000 ∷ command cancel ∷ []

history-Walks_example : Walks at_work (history disks eager some_steps (runtime at_work)).graph
history-Walks_example = history-Walks disks eager some_steps (runtime at_work) eager-IsCareful

failed_graph-terminal : graph_terminal GraphState.failed ≡ true
unfolding graph_terminal
failed_graph-terminal = refl

history-terminal_example :
    (history disks eager some_steps (runtime failed_graph)).graph.state ≡ GraphState.failed
history-terminal_example =
    history-terminal disks eager some_steps (runtime failed_graph) eager-IsCareful
      failed_graph-terminal

same_load : (rt : Runtime) → SameLoad rt.graph rt.graph
same_load rt = record { most = refl; nodes = AllSameWork-refl rt.graph.nodes }

eager-KeepsWork : KeepsWork eager
eager-KeepsWork = record {
  begins = λ rt i now. same_load rt;
  polls = λ rt i now. same_load rt;
  finishes = λ rt i ok. same_load rt;
}

alone-IsWithinLimits : IsWithinLimits waiting []
unfolding running_nodes is_running kind_eq node_state_eq mutation_eq
alone-IsWithinLimits = record {
  llm_turns = omega arith;
  writers = omega arith;
  host_tools = omega arith;
}

history-IsWithinLimits_example :
    IsWithinLimits (history disks eager some_steps (runtime waiting)).graph []
history-IsWithinLimits_example =
    history-IsWithinLimits disks eager some_steps (runtime waiting) eager-KeepsWork
      alone-IsWithinLimits

-- A runtime whose writer is at work, and one whose writer is ready.
abbrev two_runtimes : List Runtime
two_runtimes = runtime at_work ∷ runtime waiting ∷ []

abbrev some_turns : List Turn
some_turns =
    ticked 5000 ∷ commanded 1 (skip (codes "write")) ∷ ticked 6000 ∷ commanded 0 cancel ∷ []

two_runtimes-AreWithinLimits : AreWithinLimits two_runtimes
unfolding running_nodes is_running kind_eq node_state_eq mutation_eq
two_runtimes-AreWithinLimits = record {
  llm_turns = omega arith;
  writers = omega arith;
  host_tools = (omega arith, (omega arith, tt));
}

take_turns-AreWithinLimits_example :
    AreWithinLimits (take_turns (λ r. disks) eager some_turns two_runtimes)
take_turns-AreWithinLimits_example =
    take_turns-AreWithinLimits (λ r. disks) eager some_turns two_runtimes eager-KeepsWork
      two_runtimes-AreWithinLimits
