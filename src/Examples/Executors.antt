-- ===== src/Examples/Executors.antt =====
-- The theorems about the executor at concrete inputs.
use dstudio.Base.{◌↔◌, length, ◌≡◌, refl, true, false, List, [], ◌∷◌, All, Str, codes, str_eq}
use dstudio.Graph.Types.{Node}
use dstudio.Policy.Shapes.{IsConfined}
use dstudio.Executor.Available.{all_actions_pass, graph_is_available, graph_is_available-IsConfined}
use dstudio.Executor.Poll.{Turn, exited, met}
use dstudio.Executor.Watchdog.{Watch, observe_lines}
use dstudio.Executor.Watchdog.Alarms.{
  Alarmed, IsFresh, call_signature, newest, observe_lines-tripped_iff,
}
use dstudio.Examples.Samples.{program, sample, writer}

sample_native : str_eq sample.executor_mode (codes "native") ≡ true
unfolding str_eq
sample_native = refl

sample_available : graph_is_available sample ≡ true
unfolding program graph_is_available all_actions_pass
sample_available = refl

graph_is_available-IsConfined_example :
    (str_eq sample.policy (codes "agent.general.v1") ≡ true)
    × (str_eq sample.mode (codes "agent") ≡ true)
    × All (IsConfined sample) sample.nodes
graph_is_available-IsConfined_example =
    graph_is_available-IsConfined sample sample_native sample_available

-- A turn in which the process of the node has just exited with status 0.
abbrev turn : Turn
turn = record {
  owner = false;
  agent_working = false;
  transcript_written = true;
  turn_completed = false;
  live = true;
  contract = λ n. met;
  receipt_message = [];
  waited = exited true [];
}

abbrev at_test : Node
at_test = record writer { native_pid = 77 }

abbrev watch : Watch
watch = record { node = writer; last_call = 0; same_call = 0; last_result = 0; same_result = 0 }

watch-IsFresh : IsFresh watch
watch-IsFresh = record { quiet = refl; calls = refl; same_call = refl; same_result = refl }

abbrev call_line : Str
call_line = codes "{\"type\":\"tool_call\",\"name\":\"read\"}"

abbrev four_calls : List Str
four_calls = call_line ∷ call_line ∷ call_line ∷ call_line ∷ []

observe_lines-tripped_iff_example :
    (((observe_lines four_calls watch).node.watchdog_tripped ≡ true) ↔ Alarmed [] [] four_calls)
    × ((observe_lines four_calls watch).node.watchdog_tripped ≡ false
        → (observe_lines four_calls watch).node.watchdog_tool_calls
          ≡ length (newest call_signature four_calls []))
observe_lines-tripped_iff_example = observe_lines-tripped_iff four_calls watch watch-IsFresh
