-- ===== src/Scheduler/Kept/Loops.antt =====
-- The control structures of the scheduler keep what their parts keep.
use dstudio.Base.{
  List, ℕ, zero, suc, inl, inr, Bool, true, false, Str, Bool-cases, Option-cases, get_elem?, ◌≡◌,
  refl, sym, subst, if◌then◌else◌,
}
use dstudio.Graph.Types.{NodeState, Node, Graph}
use dstudio.Graph.Transition.{node_state_eq}
use dstudio.Store.Types.{Disk, NodeChange, Runtime}
use dstudio.Store.{store_node_event}
use dstudio.Scheduler.{and_then, each, each_node, only_state, scheduler_set_node}
use dstudio.Scheduler.Executor.{Executor}
use dstudio.Scheduler.Kept.{IsKept, IsPreorder, NotLeased}
use dstudio.Scheduler.Run.{with_node}
use dstudio.Scheduler.Tick.{when_state}

-- A step on a runtime that keeps a relation, whatever it starts from.
abbrev pub StepKeeps : (Graph → Graph → Type 0) → (Runtime → Bool × Runtime) → Type 0
StepKeeps R step = (rt : Runtime) → R rt.graph (step rt).1.graph

module _ {R : Graph → Graph → Type 0} (order : IsPreorder R) where
  pub and_then-Keeps :
      (g : Graph) (r : Bool × Runtime) (f : Runtime → Bool × Runtime)
      → R g r.1.graph
      → StepKeeps R f
      → R g (and_then r f).1.graph
  and_then-Keeps g (true, rt) f w step = order.chain g rt.graph (f rt).1.graph w (step rt)
  and_then-Keeps g (false, rt) f w step = w

  each-Keeps :
      (step : Runtime → ℕ → Bool × Runtime) (i k : ℕ) (rt : Runtime)
      → ((i : ℕ) → StepKeeps R (λ rt. step rt i))
      → R rt.graph (each step i k rt).1.graph
  unfolding each
  each-Keeps step i zero rt keeps = order.start rt.graph
  each-Keeps step i (suc k) rt keeps =
      and_then-Keeps rt.graph (step rt i) (λ rt'. each step (suc i) k rt') (keeps i rt)
        λ rt'. each-Keeps step (suc i) k rt' keeps

  pub each_node-Keeps :
      (step : Runtime → ℕ → Bool × Runtime)
      → ((i : ℕ) → StepKeeps R (λ rt. step rt i))
      → StepKeeps R (each_node step)
  each_node-Keeps step keeps rt = each-Keeps step 0 _ rt keeps

  pub with_node-Keeps :
      (i : ℕ) (step : Node → Runtime → Bool × Runtime)
      → ((n : Node) → StepKeeps R (step n))
      → StepKeeps R (with_node i step)
  with_node-Keeps i step keeps rt = elim (Option-cases (get_elem? rt.graph.nodes i)) [
    | inl missing ↦ rw (with_node, missing) (order.start rt.graph)
    | inr (n, e) ↦ rw (with_node, e) (keeps n rt)
  ]

  pub when_state-Keeps :
      (s : NodeState) (step : Runtime → Bool × Runtime) (n : Node)
      → StepKeeps R step
      → StepKeeps R (when_state s step n)
  when_state-Keeps s step n keeps rt = elim (Bool-cases (node_state_eq n.state s)) [
    | inl hit ↦ rw (when_state, hit) (keeps rt)
    | inr miss ↦ rw (when_state, miss) (order.start rt.graph)
  ]

  -- Both branches of a test.
  pub if-Keeps :
      (b : Bool) (g : Graph) (x y : Bool × Runtime)
      → R g x.1.graph
      → R g y.1.graph
      → R g (if b then x else y).1.graph
  if-Keeps true g x y v w = v
  if-Keeps false g x y v w = w

  pub choose-Keeps :
      (b : Bool) (g : Graph) (x y : Runtime)
      → R g x.graph
      → R g y.graph
      → R g (if b then x else y).graph
  choose-Keeps true g x y v w = v
  choose-Keeps false g x y v w = w

  -- A node that is set to a state, where the store's event keeps the relation.
  pub set_node_by-Keeps :
      (disks : ℕ → Disk) (i : ℕ) (type : Str) (state : NodeState) (message : Str)
      → ((rt : Runtime) (change : NodeChange)
          → change.node_state ≡ state
          → R rt.graph (store_node_event disks rt i type change message).1.graph)
      → StepKeeps R (λ rt. scheduler_set_node disks rt i type state message)
  unfolding scheduler_set_node
  set_node_by-Keeps disks i type state message events rt =
      elim (Option-cases (get_elem? rt.graph.nodes i)) [
        | inl missing ↦ rw (scheduler_set_node, missing) (order.start rt.graph)
        | inr (n, e) ↦ rw (scheduler_set_node, e) (events rt (only_state n state) refl)
      ]

module _ {R : Graph → Graph → Type 0} {disks : ℕ → Disk} {ex : Executor} {others : List Graph}
    (k : IsKept disks ex others R) where
  pub set_node-Keeps :
      (i : ℕ) (type : Str) (state : NodeState) (message : Str)
      → NotLeased state
      → StepKeeps R (λ rt. scheduler_set_node disks rt i type state message)
  set_node-Keeps i type state message other =
      set_node_by-Keeps k.order disks i type state message
        λ rt change same. k.node_events rt i type change message (subst NotLeased (sym same) other)
