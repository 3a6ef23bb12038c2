-- ===== src/Graph/Gates.antt =====
-- `dtg_node_has_downstream_gate` of src/dstudio_task_graph.c: a breadth-first search along the
-- dependency edges. `seen` stands beside the nodes, and `queue` holds what is not yet popped.
pub mod Scans
pub mod Search
pub mod Exact
use dstudio.Base.{
  ℕ, zero, suc, Bool, true, false, not, ◌&&◌, ◌||◌, List, [], ◌∷◌, ◌++◌, Str, str_eq, if◌then◌else◌,
  length, set, any,
}
use dstudio.Graph.Types.{NodeKind, Node}
use dstudio.Graph.Kinds.{kind_eq}
use dstudio.Graph.Order.{id_at}

abbrev pub has_edge : Node → Str → Bool
has_edge n id = any (λ d. str_eq d.node_id id) n.dependencies

pub data Scan : Type 0 where
  found : Scan
  more : List Bool → List ℕ → Scan

unfoldable pub keep : Bool → Scan → Scan
keep b found = found
keep b (more seen queue) = more (b ∷ seen) queue

-- The inner loop, from node `i` on, for the popped node's id.
unfoldable pub scan : ℕ → Str → List Node → List Bool → List ℕ → Scan
unfolding keep kind_eq
scan i id [] seen queue = more [] queue
scan i id (n ∷ ns) [] queue = more [] queue
scan i id (n ∷ ns) (s ∷ seen) queue =
    let edge = not s && has_edge n id in
    let rest = scan (suc i) id ns seen (if edge then queue ++ i ∷ [] else queue) in
    if edge && kind_eq n.kind NodeKind.gate then found else keep (s || edge) rest

-- `while (qh < qt)`. A node is queued at most once, so the number of nodes is fuel enough.
unfoldable pub gate_loop : ℕ → List Node → List Bool → List ℕ → Bool
gate_loop zero nodes seen queue = false
gate_loop (suc fuel) nodes seen [] = false
gate_loop (suc fuel) nodes seen (cur ∷ queue) = elim (scan 0 (id_at nodes cur) nodes seen queue) [
  | found ↦ true
  | more seen' queue' ↦ gate_loop fuel nodes seen' queue'
]

abbrev pub blanks : List Node → List Bool
blanks [] = []
blanks (n ∷ ns) = false ∷ blanks ns

unfoldable pub has_downstream_gate : List Node → ℕ → Bool
has_downstream_gate nodes start =
    gate_loop (length nodes) nodes (set (blanks nodes) start true) (start ∷ [])
