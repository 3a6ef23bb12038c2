-- ===== src/Graph/Order/Invariant.antt =====
-- The loop of `dtg_topological_order` keeps its invariant, ends with an empty queue, and emits
-- every node behind its dependencies.
use dstudio.Base.{
  ℕ, suc, ◌+◌, ◌-◌, ◌≤◌, ◌<◌, ◌≡◌, refl, true, false, some, none, List, [], ◌∷◌, ◌++◌, map,
  append-nil, append_assoc, Str, str_eq, if◌then◌else◌, ◌==◌, length, length-append, get_elem?,
  get_elem?-lt, All-append, All-front, All-back, count, count-append, All, arith, Bool-cases, inl,
  inr, eq_of_str_eq,
}
use mathlib.Core.List.{map-append}
use dstudio.Graph.Types.{Dependency, Node}
use dstudio.Graph.Order.{id_at}
use dstudio.Graph.Order.Counts.{matches, contains, missing, woken, lowered, wakes}
use dstudio.Graph.Order.Loop.{HasUniqueIds, IsCounted, wakes-IsWoken, IsCounted-step, IsCounted-at}

abbrev pub deps_at : List Node → ℕ → List Dependency
deps_at nodes i = elim (get_elem? nodes i) [ none ↦ [] | some n ↦ n.dependencies ]

abbrev pub ids : List Node → List ℕ → List Str
ids nodes order = map (id_at nodes) order

-- The dependencies of each listed node are among the ids `seen` and those of the nodes before it.
abbrev pub IsPlaced : List Node → List Str → List ℕ → Type 0
IsPlaced nodes seen [] = Unit
IsPlaced nodes seen (j ∷ js) =
    (missing seen (deps_at nodes j) ≡ 0) × IsPlaced nodes (seen ++ id_at nodes j ∷ []) js

abbrev pub zeros : List ℕ → ℕ
zeros [] = 0
zeros (k ∷ ks) = (if k == 0 then 1 else 0) + zeros ks

pub record LoopInv (nodes : List Node) (ks queue order : List ℕ) : Type 0 where
  pub counted : IsCounted 0 (ids nodes order) (order ++ queue) nodes ks
  pub valid : All (λ j. j < length nodes) (order ++ queue)
  pub total : length (order ++ queue) ≡ zeros ks
  pub placed : IsPlaced nodes [] order

wakes-valid :
    (i : ℕ) (id : Str) (ns : List Node) (ks : List ℕ) (bound : ℕ)
    → i + length ns ≤ bound
    → All (λ j. j < bound) (wakes i id ns ks)
wakes-valid i id [] ks bound h = tt
wakes-valid i id (n ∷ ns) [] bound h = tt
wakes-valid i id (n ∷ ns) (k ∷ ks) bound h =
    All-append (λ j. j < bound) (woken i k (k - matches id n.dependencies)) (wakes (suc i) id ns ks)
      (ground arith) (wakes-valid (suc i) id ns ks bound (omega arith))

zeros-lowered :
    (i : ℕ) (seen : List Str) (listed : List ℕ) (j : ℕ) (id : Str) (ns : List Node) (ks : List ℕ)
    → IsCounted i seen listed ns ks
    → length (wakes j id ns ks) + zeros ks ≡ zeros (lowered id ns ks)
zeros-lowered i seen listed j id [] [] h = omega arith
zeros-lowered i seen listed j id [] (k ∷ ks) h = absurd h
zeros-lowered i seen listed j id (n ∷ ns) [] h = absurd h
zeros-lowered i seen listed j id (n ∷ ns) (k ∷ ks) h =
    let ih = zeros-lowered (suc i) seen listed (suc j) id ns ks h.2 in
    let split =
      length-append (woken j k (k - matches id n.dependencies)) (wakes (suc j) id ns ks) in
    ground arith

pub contains-ids :
    (nodes : List Node) (order : List ℕ) (s : Str)
    → contains (ids nodes order) s ≡ true
    → All (λ j. j < length nodes) order
    → (j : ℕ) × (1 ≤ count j order) × (j < length nodes) × (s ≡ id_at nodes j)
contains-ids nodes [] s h v = cc
contains-ids nodes (i ∷ order) s h v = elim (Bool-cases (str_eq s (id_at nodes i))) [
  | inl hit ↦ (i, ground arith, v.0, eq_of_str_eq s (id_at nodes i) hit)
  | inr miss ↦
      let (j, often, bound, same) = contains-ids nodes order s (ground arith) v.1 in
      (j, omega arith, bound, same)
]

pub IsPlaced-snoc :
    (nodes : List Node) (seen : List Str) (order : List ℕ) (n : ℕ)
    → IsPlaced nodes seen order
    → missing (seen ++ ids nodes order) (deps_at nodes n) ≡ 0
    → IsPlaced nodes seen (order ++ n ∷ [])
IsPlaced-snoc nodes seen [] n h e = (rw append-nil at e, tt)
IsPlaced-snoc nodes seen (j ∷ order) n h e =
    (h.0, IsPlaced-snoc nodes (seen ++ id_at nodes j ∷ []) order n h.1 (rw append_assoc e))

module _ (nodes : List Node) (unique : HasUniqueIds nodes) (n : ℕ) (ks queue order : List ℕ)
    (inv : LoopInv nodes ks (n ∷ queue) order) where
  popped_bound : n < length nodes
  popped_bound = (All-back (λ j. j < length nodes) order (n ∷ queue) inv.valid).0

  popped_count : count n order + 1 + count n queue ≡ count n (order ++ n ∷ queue)
  popped_count = rw (count-append n order (n ∷ queue)) (ground arith)

  popped_ready : (missing (ids nodes order) (deps_at nodes n) ≡ 0) × (count n order ≡ 0)
  popped_ready =
      let (m, found) = get_elem?-lt nodes n popped_bound in
      let once =
        IsCounted-at 0 (ids nodes order) (order ++ n ∷ queue) nodes ks n m inv.counted found in
      let shift : 0 + n ≡ n = omega arith in
      let once' = rw shift at once in
      let many = popped_count in
      let same : deps_at nodes n ≡ m.dependencies = rw (found, deps_at) refl in
      rw same (ground arith)

  popped_fresh : contains (ids nodes order) (id_at nodes n) ≡ false
  popped_fresh = elim (Bool-cases (contains (ids nodes order) (id_at nodes n))) [
    | inl there ↦
        let front = All-front (λ j. j < length nodes) order (n ∷ queue) inv.valid in
        let (j, often, bound, same) = contains-ids nodes order (id_at nodes n) there front in
        let e : n ≡ j = unique n j popped_bound bound same in
        let never = popped_ready.1 in let often' = rw (← e) at often in absurd (omega arith)
    | inr absent ↦ absent
  ]

  -- The invariant after one round.
  pub LoopInv-step :
      LoopInv nodes
        (lowered (id_at nodes n) nodes ks)
        (queue ++ wakes 0 (id_at nodes n) nodes ks)
        (order ++ n ∷ [])
  LoopInv-step =
      let id = id_at nodes n in
      let woke = wakes 0 id nodes ks in
      let regroup : (order ++ n ∷ []) ++ (queue ++ woke) ≡ (order ++ n ∷ queue) ++ woke =
        simp append_assoc in
      let snoc : ids nodes (order ++ n ∷ []) ≡ ids nodes order ++ id ∷ [] =
        map-append (id_at nodes) order (n ∷ []) in
      record {
        counted =
            rw (snoc, regroup)
              (IsCounted-step 0 (ids nodes order) id (order ++ n ∷ queue) woke nodes ks popped_fresh
                inv.counted (wakes-IsWoken 0 id [] nodes ks (λ j below. refl)));
        valid = rw regroup (
            All-append (λ j. j < length nodes) (order ++ n ∷ queue) woke inv.valid
              (wakes-valid 0 id nodes ks (length nodes) (omega arith)));
        total =
            rw (regroup, length-append (order ++ n ∷ queue) woke)
              (omega (
                arith,
                inv.total,
                zeros-lowered 0 (ids nodes order) (order ++ n ∷ queue) 0 id nodes ks inv.counted,
              ));
        placed = IsPlaced-snoc nodes [] order n inv.placed popped_ready.0;
      }
