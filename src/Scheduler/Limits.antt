-- ===== src/Scheduler/Limits.antt =====
-- The limits on parallel work that `dtg_scheduler_next_ready` of src/dstudio_task_scheduler.c
-- keeps, and how much the work of a graph grows with what is done to one of its nodes.
pub mod Attempt
pub mod Calm
pub mod Dispatch
pub mod Histories
pub mod Registry
use dstudio.Base.{
  ℕ, zero, suc, ◌+◌, ◌≤◌, ◌≡◌, refl, sym, ◌∙◌, ap, subst, Bool, true, false, not, ◌&&◌, ◌||◌, List,
  [], ◌∷◌, Option, none, some, if◌then◌else◌, set, get_elem?, arith,
}
use dstudio.Graph.Types.{NodeKind, Node, Graph}
use dstudio.Graph.Kinds.{kind_eq, mutation_eq}
use dstudio.Graph.Transition.{node_state_eq}
use dstudio.Store.Types.{Runtime}
use dstudio.Scheduler.Executor.{Executor}
use dstudio.Scheduler.Kept.{SameCast, SameWork}
use dstudio.Scheduler.Ready.{is_running, is_writer, running_nodes}

-- The work of the same sort in the graphs of a registry.
abbrev pub all_running : NodeKind → Bool → List Graph → ℕ
all_running kind writers_only [] = 0
all_running kind writers_only (g ∷ registry) =
    running_nodes kind writers_only g.nodes + all_running kind writers_only registry

-- Over the graph and the others in use no more than one agent's turn and one writer is at work, and
-- in the graph no more host tools than it admits.
pub record IsWithinLimits (g : Graph) (others : List Graph) : Type 0 where
  pub llm_turns : all_running NodeKind.agent_turn false (g ∷ others) ≤ 1
  pub writers : all_running NodeKind.kind_invalid true (g ∷ others) ≤ 1
  pub host_tools : running_nodes NodeKind.host_tool false g.nodes ≤ g.max_parallel_host_nodes

abbrev pub AllSameWork : List Node → List Node → Type 0
AllSameWork [] [] = Unit
AllSameWork [] (m ∷ ms) = ⊥
AllSameWork (n ∷ ns) [] = ⊥
AllSameWork (n ∷ ns) (m ∷ ms) = SameWork n m × AllSameWork ns ms

-- The nodes are at the same work, but for the one at index `i`.
abbrev pub Beside : ℕ → List Node → List Node → Type 0
Beside i [] [] = Unit
Beside i [] (m ∷ ms) = ⊥
Beside i (n ∷ ns) [] = ⊥
Beside zero (n ∷ ns) (m ∷ ms) = SameCast n m × AllSameWork ns ms
Beside (suc i) (n ∷ ns) (m ∷ ms) = SameWork n m × Beside i ns ms

-- A graph whose nodes are at the same work, under the same limit.
pub record SameLoad (g g' : Graph) : Type 0 where
  pub most : g'.max_parallel_host_nodes ≡ g.max_parallel_host_nodes
  pub nodes : AllSameWork g.nodes g'.nodes

-- What an executor writes in a graph is of no weight here.
pub record KeepsWork (ex : Executor) : Type 0 where
  pub begins : (rt : Runtime) (i now : ℕ) → SameLoad rt.graph (ex.begin rt i now).1.graph
  pub polls : (rt : Runtime) (i now : ℕ) → SameLoad rt.graph (ex.poll rt i now).1.graph
  pub finishes : (rt : Runtime) (i : ℕ) (ok : Bool) → SameLoad rt.graph (ex.finish rt i ok).1.graph

SameCast-trans : (n m k : Node) → SameCast n m → SameCast m k → SameCast n k
SameCast-trans n m k a b = record { kind = b.kind ∙ a.kind; mutation = b.mutation ∙ a.mutation }

SameWork-trans : (n m k : Node) → SameWork n m → SameWork m k → SameWork n k
SameWork-trans n m k a b = record {
  cast = SameCast-trans n m k a.cast b.cast;
  state = b.state ∙ a.state;
}

same_cast : (n : Node) → SameCast n n
same_cast n = record { kind = refl; mutation = refl }

same_work : (n : Node) → SameWork n n
same_work n = record { cast = same_cast n; state = refl }

pub AllSameWork-refl : (ns : List Node) → AllSameWork ns ns
AllSameWork-refl [] = tt
AllSameWork-refl (n ∷ ns) = (same_work n, AllSameWork-refl ns)

AllSameWork-trans :
    (ns ms ks : List Node) → AllSameWork ns ms → AllSameWork ms ks → AllSameWork ns ks
AllSameWork-trans [] [] [] a b = tt
AllSameWork-trans (n ∷ ns) (m ∷ ms) (k ∷ ks) a b =
    (SameWork-trans n m k a.0 b.0, AllSameWork-trans ns ms ks a.1 b.1)
AllSameWork-trans [] [] (k ∷ ks) a b = b
AllSameWork-trans [] (m ∷ ms) ks a b = absurd a
AllSameWork-trans (n ∷ ns) [] ks a b = absurd a
AllSameWork-trans (n ∷ ns) (m ∷ ms) [] a b = b

pub Beside-of_same : (i : ℕ) (ns ms : List Node) → AllSameWork ns ms → Beside i ns ms
Beside-of_same i [] [] a = tt
Beside-of_same i [] (m ∷ ms) a = a
Beside-of_same zero (n ∷ ns) [] a = a
Beside-of_same (suc i) (n ∷ ns) [] a = a
Beside-of_same zero (n ∷ ns) (m ∷ ms) a = (a.0.cast, a.1)
Beside-of_same (suc i) (n ∷ ns) (m ∷ ms) a = (a.0, Beside-of_same i ns ms a.1)

pub Beside-refl : (i : ℕ) (ns : List Node) → Beside i ns ns
Beside-refl i ns = Beside-of_same i ns ns (AllSameWork-refl ns)

pub Beside-trans : (i : ℕ) (ns ms ks : List Node) → Beside i ns ms → Beside i ms ks → Beside i ns ks
Beside-trans i [] [] [] a b = tt
Beside-trans zero (n ∷ ns) (m ∷ ms) (k ∷ ks) a b =
    (SameCast-trans n m k a.0 b.0, AllSameWork-trans ns ms ks a.1 b.1)
Beside-trans (suc i) (n ∷ ns) (m ∷ ms) (k ∷ ks) a b =
    (SameWork-trans n m k a.0 b.0, Beside-trans i ns ms ks a.1 b.1)
Beside-trans i [] [] (k ∷ ks) a b = b
Beside-trans i [] (m ∷ ms) ks a b = absurd a
Beside-trans zero (n ∷ ns) [] ks a b = absurd a
Beside-trans (suc i) (n ∷ ns) [] ks a b = absurd a
Beside-trans zero (n ∷ ns) (m ∷ ms) [] a b = b
Beside-trans (suc i) (n ∷ ns) (m ∷ ms) [] a b = b

-- A write at index `i`.
pub Beside-set :
    (i : ℕ) (ns : List Node) (n m : Node)
    → get_elem? ns i ≡ some n
    → SameCast n m
    → Beside i ns (set ns i m)
Beside-set i [] n m e cast = cc
Beside-set zero (x ∷ ns) n m e cast =
    let same : n ≡ x = cc in (subst (λ y. SameCast y m) same cast, AllSameWork-refl ns)
Beside-set (suc i) (x ∷ ns) n m e cast = (same_work x, Beside-set i ns n m e cast)

-- A node that a limit is about.
abbrev pub counts : NodeKind → Bool → Node → Bool
counts kind writers_only n =
    (kind_eq kind NodeKind.kind_invalid || kind_eq n.kind kind) && (not writers_only || is_writer n)

module _ (kind : NodeKind) (writers_only : Bool) where
  counts-SameCast :
      (n m : Node) → SameCast n m → counts kind writers_only m ≡ counts kind writers_only n
  counts-SameCast n m same = rw (same.kind, same.mutation) refl

  is_running-SameWork :
      (n m : Node) → SameWork n m → is_running kind writers_only m ≡ is_running kind writers_only n
  unfolding is_running
  is_running-SameWork n m same = rw (same.state, same.cast.kind, same.cast.mutation) refl

  pub running_nodes-AllSameWork :
      (ns ms : List Node)
      → AllSameWork ns ms
      → running_nodes kind writers_only ms ≡ running_nodes kind writers_only ns
  unfolding running_nodes
  running_nodes-AllSameWork [] [] same = refl
  running_nodes-AllSameWork [] (m ∷ ms) same = absurd same
  running_nodes-AllSameWork (n ∷ ns) [] same = absurd same
  running_nodes-AllSameWork (n ∷ ns) (m ∷ ms) same =
      rw (is_running-SameWork n m same.0, running_nodes-AllSameWork ns ms same.1) refl

  -- What is done to one node adds that node to the work at most, and only to its own sort.
  pub running_nodes-Beside :
      (i : ℕ) (ns ms : List Node) (n : Node)
      → get_elem? ns i ≡ some n
      → Beside i ns ms
      → running_nodes kind writers_only ms
        ≤ running_nodes kind writers_only ns + (if counts kind writers_only n then 1 else 0)
  unfolding running_nodes is_running
  running_nodes-Beside i [] ms n e b = cc
  running_nodes-Beside zero (x ∷ ns) [] n e b = absurd b
  running_nodes-Beside (suc i) (x ∷ ns) [] n e b = absurd b
  running_nodes-Beside zero (x ∷ ns) (m ∷ ms) n e b =
      let same : x ≡ n = cc in
      let cast = rw same at (counts-SameCast x m b.0) in
      let rest = running_nodes-AllSameWork ns ms b.1 in ground arith
  running_nodes-Beside (suc i) (x ∷ ns) (m ∷ ms) n e b =
      let here = is_running-SameWork x m b.0 in
      let rest = running_nodes-Beside i ns ms n e b.1 in
      rw (is_running-SameWork x m b.0) (omega (arith, rest))
