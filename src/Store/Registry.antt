-- ===== src/Store/Registry.antt =====
-- The registry of runtimes in src/dstudio_task_store.c: `dtg_registry_find` and
-- `dtg_registry_allocate`. A slot that is not used is `none`; a runtime is named by its slot.
pub mod Eviction
use dstudio.Base.{
  ℕ, suc, ◌-◌, ◌^◌, Bool, true, false, ◌&&◌, List, [], ◌∷◌, Option, some, none, Str, str_eq,
  if◌then◌else◌, ltb, set,
}
use dstudio.Graph.Transition.{graph_terminal}
use dstudio.Store.Types.{Runtime}

abbrev pub is_for : Str → Str → Option Runtime → Bool
is_for workspace_real graph_id none = false
is_for workspace_real graph_id (some rt) =
    str_eq rt.graph.id graph_id && str_eq rt.workspace_real workspace_real

-- The loop from slot `i` on.
unfoldable pub registry_find : Str → Str → ℕ → List (Option Runtime) → Option ℕ
registry_find workspace_real graph_id i [] = none
registry_find workspace_real graph_id i (slot ∷ slots) =
    if is_for workspace_real graph_id slot
    then some i
    else registry_find workspace_real graph_id (suc i) slots

unfoldable pub free_slot : ℕ → List (Option Runtime) → Option ℕ
free_slot i [] = none
free_slot i (none ∷ slots) = some i
free_slot i (some rt ∷ slots) = free_slot (suc i) slots

-- A terminal runtime that was loaded before `oldest`.
abbrev pub is_victim : ℕ → Option Runtime → Bool
is_victim oldest none = false
is_victim oldest (some rt) = graph_terminal rt.graph.state && ltb rt.loaded_ms oldest

abbrev pub loaded_at : Option Runtime → ℕ
loaded_at none = 0
loaded_at (some rt) = rt.loaded_ms

-- The second loop, with `oldest` and `victim`; the least time wins, and the first of equal ones.
unfoldable pub find_victim : ℕ → List (Option Runtime) → ℕ → Option ℕ → Option ℕ
find_victim i [] oldest victim = victim
find_victim i (slot ∷ slots) oldest victim =
    if is_victim oldest slot
    then find_victim (suc i) slots (loaded_at slot) (some i)
    else find_victim (suc i) slots oldest victim

-- The slot that is handed out, cleared, and the registry.
unfoldable pub registry_allocate : List (Option Runtime) → Option (ℕ × List (Option Runtime))
registry_allocate slots = elim (free_slot 0 slots) [
  | some i ↦ some (i, slots)
  | none ↦ elim (find_victim 0 slots (2 ^ 63 - 1) none) [
    | none ↦ none
    | some i ↦ some (i, set slots i none)
  ]
]
