-- ===== src/Executor/Watchdog.antt =====
-- The watchdog over an agent's turn in src/dstudio_task_executor.c: `dtg_watchdog_observe_event_line`
-- and `dtg_watchdog_trip`. `Watch` holds its global counters beside the node that owns the turn.
-- The copy of a counter that receipts print, and the signal to the process, are left out.
pub mod Alarms
use dstudio.Base.{
  cstr_copy, ℕ, suc, Bool, true, false, not, ◌&&◌, ◌||◌, List, [], ◌∷◌, Option, some, none, Str,
  codes, has_prefix, if◌then◌else◌, ◌==◌, leb,
}
use dstudio.Graph.Types.{Node}
use dstudio.Policy.Digest.{fnv1a64_bytes}
use dstudio.Store.{or_else}

pub record Watch : Type 0 where
  pub node : Node
  pub last_call : ℕ
  pub same_call : ℕ
  pub last_result : ℕ
  pub same_result : ℕ

unfoldable pub watchdog_trip : Str → Node → Node
watchdog_trip reason n = if n.watchdog_tripped then n else record n {
  watchdog_tripped = true;
  native_success = false;
  native_message = cstr_copy 511 reason;
}

-- `strstr`: what stands in the text from the first occurrence on.
unfoldable pub find_text : Str → Str → Option Str
find_text [] needle = if has_prefix [] needle then some [] else none
find_text (c ∷ s) needle = if has_prefix (c ∷ s) needle then some (c ∷ s) else find_text s needle

-- A line may start with the record separator.
unfoldable pub strip_separator : Str → Str
strip_separator [] = []
strip_separator (c ∷ s) = if c == 0x1e then s else c ∷ s

abbrev pub is_call_line : Str → Bool
is_call_line event = has_prefix event (codes "{\"type\":\"tool_call\",")

abbrev pub is_result_line : Str → Bool
is_result_line event = has_prefix event (codes "{\"type\":\"tool_result\",")

abbrev pub output_part : Str → Str
output_part event = or_else event (find_text event (codes "\"output\":"))

unfoldable pub stable_part : Bool → Str → Str
stable_part true event = or_else event (find_text event (codes "\"name\":"))
stable_part false event = or_else (output_part event) (find_text event (codes "\"result\":"))

abbrev pub repeats : ℕ → ℕ → ℕ → ℕ
repeats signature last same = if signature == last then suc same else 1

-- The node behind a call that is the `same`-th in a row, and the `calls`-th of the turn.
unfoldable pub weigh_call : ℕ → Node → Node
weigh_call same n =
    if leb 4 same
    then watchdog_trip (codes "Watchdog stopped four identical Agent tool calls") n
    else if leb 128 n.watchdog_tool_calls
    then watchdog_trip (codes "Watchdog stopped Agent turn after 128 tool calls") n
    else n

unfoldable pub observe_call : ℕ → Watch → Watch
observe_call signature w =
    let same = repeats signature w.last_call w.same_call in
    record w {
      node =
          weigh_call same (record w.node { watchdog_tool_calls = suc w.node.watchdog_tool_calls });
      last_call = signature;
      same_call = same;
    }

unfoldable pub observe_result : ℕ → Watch → Watch
observe_result signature w =
    let same = repeats signature w.last_result w.same_result in
    record w {
      node =
          if leb 4 same
          then watchdog_trip (codes "Watchdog stopped four identical tool results without progress")
              w.node
          else w.node;
      last_result = signature;
      same_result = same;
    }

unfoldable pub observe_event_line : Str → Watch → Watch
observe_event_line line w =
    let event = strip_separator line in
    if w.node.watchdog_tripped || not (is_call_line event) && not (is_result_line event)
    then w
    else if is_call_line event
    then observe_call (fnv1a64_bytes 0 (stable_part true event)) w
    else observe_result (fnv1a64_bytes 0 (stable_part false event)) w

unfoldable pub observe_lines : List Str → Watch → Watch
observe_lines [] w = w
observe_lines (line ∷ lines) w = observe_lines lines (observe_event_line line w)
