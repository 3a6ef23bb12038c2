-- ===== src/Graph/Dependencies.antt =====
-- `dtg_add_dependency` of src/dstudio_task_graph.c, and the loop of `dtg_parse_dependencies` over
-- the decoded items of a node's `dependsOn`.
pub mod Distinct
use dstudio.Base.{
  ℕ, Bool, true, false, not, List, [], ◌∷◌, ◌++◌, Option, some, none, Str, cstr_copy, str_eq,
  if◌then◌else◌, ◌==◌, leb, length, Outcome, ok, err,
}
use dstudio.Base.Fallible.{◌>>=◌}
use dstudio.Graph.Types.{Condition, dep_succeeded, dep_terminal, Dependency}
use dstudio.Graph.Paths.{id_max, id_valid}

abbrev pub max_dependencies : ℕ
max_dependencies = 64

-- An invalid id fails without a message.
pub data DependencyError : Type 0 where
  too_many_dependencies conflicting_dependency duplicate_dependency invalid_id : DependencyError

abbrev pub condition_value : Condition → ℕ
condition_value dep_succeeded = 0
condition_value dep_terminal = 1

-- The loop over the dependencies that the node has.
unfoldable pub find_duplicate : List Dependency → Str → Condition → Option DependencyError
find_duplicate [] id condition = none
find_duplicate (d ∷ ds) id condition =
    if str_eq d.node_id id
    then some (
        if condition_value d.condition == condition_value condition
        then duplicate_dependency
        else conflicting_dependency)
    else find_duplicate ds id condition

unfoldable pub add_dependency :
    List Dependency → Dependency → Outcome DependencyError (List Dependency)
add_dependency deps d =
    if leb max_dependencies (length deps)
    then err too_many_dependencies
    else elim (find_duplicate deps d.node_id d.condition) [
      | some e ↦ err e
      | none ↦
          ok (deps ++ record { node_id = cstr_copy id_max d.node_id; condition = d.condition } ∷ [])
    ]

unfoldable pub add_dependencies :
    List Dependency → List Dependency → Outcome DependencyError (List Dependency)
add_dependencies deps [] = ok deps
add_dependencies deps (d ∷ ds) =
    if not (id_valid d.node_id)
    then err invalid_id
    else add_dependency deps d >>= λ deps'. add_dependencies deps' ds
