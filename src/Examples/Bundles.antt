-- ===== src/Examples/Bundles.antt =====
-- The theorem about the dependencies of a node at a concrete input.
use dstudio.Base.{◌≡◌, ◌++◌, refl, List, [], ◌∷◌, codes, cstr_copy, has_prefix, ok, str_eq, arith}
use dstudio.Graph.Types.{Dependency, dep_succeeded, dep_terminal}
use dstudio.Graph.Paths.{has_dot_dot, id_valid}
use dstudio.Graph.Dependencies.{add_dependencies, add_dependency, find_duplicate}
use dstudio.Graph.Dependencies.Distinct.{IsBundle, add_dependencies-IsBundle}

abbrev two : List Dependency
two =
    record { node_id = codes "write"; condition = dep_succeeded }
    ∷ record { node_id = codes "check"; condition = dep_terminal }
    ∷ []

no_dependencies : IsBundle []
no_dependencies = record { few = omega arith; apart = tt }

two_added : add_dependencies [] two ≡ ok two
unfolding add_dependencies add_dependency find_duplicate id_valid has_dot_dot has_prefix str_eq
    cstr_copy
two_added = refl

add_dependencies-IsBundle_example : (two ≡ [] ++ two) × IsBundle two
add_dependencies-IsBundle_example = add_dependencies-IsBundle [] two two no_dependencies two_added
