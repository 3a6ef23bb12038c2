-- ===== src/Graph/Gates/Exact.antt =====
-- `dtg_node_has_downstream_gate` answers exactly whether a gate lies downstream.
use dstudio.Base.{
  ℕ, zero, suc, ◌+◌, ◌≤◌, ◌<◌, ◌≡◌, ◌↔◌, inl, inr, refl, ◌∙◌, ap, Bool, true, false, List, [], ◌∷◌,
  ◌++◌, length, set, arith, Bool-cases, length-append, length-set,
}
use dstudio.Graph.Types.{Node}
use dstudio.Graph.Order.{id_at}
use dstudio.Graph.Gates.{gate_loop, blanks, has_downstream_gate}
use dstudio.Graph.Gates.Scans.{flag, hits, marked, added, scan_lem, unseen, unseen-marked}
use dstudio.Graph.Gates.Search.{Downstream, GateBelow, SearchInv, hit_GateBelow, SearchInv-step}

-- What the loop's answer says.
abbrev Answers : List Node → ℕ → Bool → Type 0
Answers nodes start true = GateBelow nodes start
Answers nodes start false = (seen : List Bool) × SearchInv nodes start seen []

gate_loop_hit :
    (fuel : ℕ) (nodes : List Node) (c : ℕ) (seen : List Bool) (queue : List ℕ)
    → hits (id_at nodes c) nodes seen ≡ true
    → gate_loop (suc fuel) nodes seen (c ∷ queue) ≡ true
unfolding gate_loop
gate_loop_hit fuel nodes c seen queue h =
    rw (gate_loop, scan_lem 0 (id_at nodes c) nodes seen queue, h) refl

gate_loop_miss :
    (fuel : ℕ) (nodes : List Node) (c : ℕ) (seen : List Bool) (queue : List ℕ)
    → hits (id_at nodes c) nodes seen ≡ false
    → gate_loop (suc fuel) nodes seen (c ∷ queue)
      ≡ gate_loop fuel nodes
          (marked (id_at nodes c) nodes seen)
          (queue ++ added 0 (id_at nodes c) nodes seen)
unfolding gate_loop
gate_loop_miss fuel nodes c seen queue h =
    rw (gate_loop, scan_lem 0 (id_at nodes c) nodes seen queue, h) refl

gate_loop-Answers :
    (fuel : ℕ) (nodes : List Node) (start : ℕ) (seen : List Bool) (queue : List ℕ)
    → unseen seen + length queue ≤ fuel
    → SearchInv nodes start seen queue
    → Answers nodes start (gate_loop fuel nodes seen queue)
gate_loop-Answers zero nodes start seen [] h inv = unfold gate_loop in (seen, inv)
gate_loop-Answers zero nodes start seen (c ∷ queue) h inv = absurd (omega arith)
gate_loop-Answers (suc fuel) nodes start seen [] h inv = unfold gate_loop in (seen, inv)
gate_loop-Answers (suc fuel) nodes start seen (c ∷ queue) h inv =
    elim (Bool-cases (hits (id_at nodes c) nodes seen)) [
      | inl hit ↦
          rw (gate_loop_hit fuel nodes c seen queue hit)
            (hit_GateBelow nodes start c seen queue inv hit)
      | inr miss ↦
          let fresh = added 0 (id_at nodes c) nodes seen in
          rw (gate_loop_miss fuel nodes c seen queue miss) (
            gate_loop-Answers fuel nodes start (marked (id_at nodes c) nodes seen) (queue ++ fresh)
              (omega (
                arith,
                unseen-marked 0 (id_at nodes c) nodes seen inv.sized,
                length-append queue fresh,
              ))
              (SearchInv-step nodes start c seen queue inv miss))
    ]

length-blanks : (nodes : List Node) → length (blanks nodes) ≡ length nodes
length-blanks [] = refl
length-blanks (n ∷ ns) = ap suc (length-blanks ns)

flag-set_self : (seen : List Bool) (i : ℕ) → i < length seen → flag (set seen i true) i ≡ true
flag-set_self [] i h = elim h [ ]
flag-set_self (s ∷ seen) zero h = refl
flag-set_self (s ∷ seen) (suc i) h = flag-set_self seen i (omega arith)

flag-blanks : (nodes : List Node) (i : ℕ) → flag (blanks nodes) i ≡ false
flag-blanks [] i = refl
flag-blanks (n ∷ ns) zero = refl
flag-blanks (n ∷ ns) (suc i) = flag-blanks ns i

only_start :
    (nodes : List Node) (start i : ℕ) → flag (set (blanks nodes) start true) i ≡ true → i ≡ start
only_start [] start i h = cc
only_start (n ∷ ns) zero zero h = refl
only_start (n ∷ ns) zero (suc i) h = let blank = flag-blanks ns i in cc
only_start (n ∷ ns) (suc start) zero h = cc
only_start (n ∷ ns) (suc start) (suc i) h = ap suc (only_start ns start i h)

unseen-blanks : (nodes : List Node) → unseen (blanks nodes) ≡ length nodes
unseen-blanks [] = refl
unseen-blanks (n ∷ ns) = omega (arith, unseen-blanks ns)

unseen-start :
    (nodes : List Node) (start : ℕ)
    → start < length nodes
    → unseen (set (blanks nodes) start true) + 1 ≡ length nodes
unseen-start [] start h = elim h [ ]
unseen-start (n ∷ ns) zero h = omega (arith, unseen-blanks ns)
unseen-start (n ∷ ns) (suc start) h = omega (arith, unseen-start ns start (omega arith))

SearchInv-start :
    (nodes : List Node) (start : ℕ)
    → start < length nodes
    → SearchInv nodes start (set (blanks nodes) start true) (start ∷ [])
SearchInv-start nodes start h =
    let size = length-blanks nodes in
    record {
      sized = length-set (blanks nodes) start true ∙ size;
      started = flag-set_self (blanks nodes) start (omega arith);
      reached = (inl refl, tt);
      no_gate = λ i n e f other. absurd (other (only_start nodes start i f));
      settled = λ j f. let same = only_start nodes start j f in inl (rw same (ground arith));
    }

Downstream-seen :
    (nodes : List Node) (start i : ℕ) (seen : List Bool)
    → SearchInv nodes start seen []
    → Downstream nodes start i
    → flag seen i ≡ true
Downstream-seen nodes start i seen inv (Downstream.direct edge) =
    elim (inv.settled start inv.started) [
      | inl waits ↦ absurd (omega arith)
      | inr closed ↦ closed i edge.0 edge.1 edge.2
    ]
Downstream-seen nodes start i seen inv (Downstream.further {j = j} below edge) =
    elim (inv.settled j (Downstream-seen nodes start j seen inv below)) [
      | inl waits ↦ absurd (omega arith)
      | inr closed ↦ closed i edge.0 edge.1 edge.2
    ]

no-GateBelow :
    (nodes : List Node) (start : ℕ) (seen : List Bool)
    → SearchInv nodes start seen []
    → GateBelow nodes start
    → ⊥
no-GateBelow nodes start seen inv (i, n, there, gate, other, below) =
    let plain = inv.no_gate i n there (Downstream-seen nodes start i seen inv below) other in cc

has_downstream_gate-Answers :
    (nodes : List Node) (start : ℕ)
    → start < length nodes
    → Answers nodes start (has_downstream_gate nodes start)
unfolding has_downstream_gate
has_downstream_gate-Answers nodes start h =
    gate_loop-Answers (length nodes) nodes start (set (blanks nodes) start true) (start ∷ [])
      (omega (arith, unseen-start nodes start h)) (SearchInv-start nodes start h)

-- The search from a node succeeds exactly when a gate other than the node itself depends on it,
-- directly or through other nodes.
pub has_downstream_gate_iff :
    (nodes : List Node) (start : ℕ)
    → start < length nodes
    → (has_downstream_gate nodes start ≡ true) ↔ GateBelow nodes start
has_downstream_gate_iff nodes start h =
    let answer = has_downstream_gate-Answers nodes start h in
    elim (Bool-cases (has_downstream_gate nodes start)) [
      | inl hit ↦ (λ e. rw hit at answer, λ below. hit)
      | inr miss ↦
          let (seen, inv) = rw miss at answer in
          (λ e. cc, λ below. absurd (no-GateBelow nodes start seen inv below))
    ]
