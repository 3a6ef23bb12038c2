-- ===== src/Graph/Gates/Search.antt =====
-- The search of `dtg_node_has_downstream_gate` against an inductive account of what lies
-- downstream of a node.
use dstudio.Base.{
  ℕ, zero, suc, ◌+◌, ◌≤◌, ◌<◌, ◌≡◌, ◌≢◌, ◌⊎◌, inl, inr, refl, sym, subst, Bool, true, false, not,
  ◌&&◌, ◌||◌, some, List, [], ◌∷◌, ◌++◌, Str, if◌then◌else◌, ◌==◌, length, get_elem?, get_elem?-lt,
  All-append, count, count-append, All, arith, Bool-cases,
}
use dstudio.Graph.Types.{Node}
use dstudio.Graph.Order.{id_at}
use dstudio.Graph.Gates.{has_edge}
use dstudio.Graph.Gates.Scans.{
  is_gate, flag, hits, marked, added, length-marked, flag-marked, count-added, hits_sound,
  hits_complete,
}

-- Node `i` depends on node `j`.
abbrev pub Edge : List Node → ℕ → ℕ → Type 0
Edge nodes j i = (n : Node) × (get_elem? nodes i ≡ some n) × (has_edge n (id_at nodes j) ≡ true)

-- Node `i` depends on node `start`, directly or through others.
pub data Downstream (nodes : List Node) (start : ℕ) : ℕ → Type 0 where
  direct : {i : ℕ} → Edge nodes start i → Downstream nodes start i
  further : {j i : ℕ} → Downstream nodes start j → Edge nodes j i → Downstream nodes start i

-- A gate other than `start` lies downstream of it.
abbrev pub GateBelow : List Node → ℕ → Type 0
GateBelow nodes start =
    (i : ℕ) × (n : Node) × (get_elem? nodes i ≡ some n)
    × (is_gate n ≡ true)
    × (i ≢ start)
    × Downstream nodes start i

pub record SearchInv (nodes : List Node) (start : ℕ) (seen : List Bool) (queue : List ℕ)
    : Type 0 where
  pub sized : length seen ≡ length nodes
  pub started : flag seen start ≡ true
  pub reached : All (λ j. (j ≡ start) ⊎ Downstream nodes start j) queue
  pub no_gate :
      (i : ℕ) (n : Node)
      → get_elem? nodes i ≡ some n
      → flag seen i ≡ true
      → i ≢ start
      → is_gate n ≡ false
  pub settled :
      (j : ℕ)
      → flag seen j ≡ true
      → (1 ≤ count j queue)
        ⊎ ((i : ℕ) (n : Node)
            → get_elem? nodes i ≡ some n
            → has_edge n (id_at nodes j) ≡ true
            → flag seen i ≡ true)

pub flag-lt : (seen : List Bool) (j : ℕ) → flag seen j ≡ true → j < length seen
flag-lt [] j h = cc
flag-lt (s ∷ seen) zero h = omega arith
flag-lt (s ∷ seen) (suc j) h = omega (arith, flag-lt seen j h)

added-All {κ} :
    (P : ℕ → Type κ) (i : ℕ) (id : Str) (ns : List Node) (seen : List Bool)
    → ((k : ℕ) (n : Node) → get_elem? ns k ≡ some n → has_edge n id ≡ true → P (i + k))
    → All P (added i id ns seen)
added-All P i id [] seen f = tt
added-All P i id (n ∷ ns) [] f = tt
added-All P i id (n ∷ ns) (s ∷ seen) f =
    All-append P (if not s && has_edge n id then i ∷ [] else []) (added (suc i) id ns seen)
      (first s (has_edge n id) refl)
      (added-All P (suc i) id ns seen (λ k m e edge.
        let shift : suc i + k ≡ i + suc k = omega arith in rw shift (f (suc k) m e edge)))
  where
    first : (t e : Bool) → has_edge n id ≡ e → All P (if not t && e then i ∷ [] else [])
    first true e same = tt
    first false false same = tt
    first false true same = let shift : i ≡ i + 0 = omega arith in (rw shift (f 0 n refl same), tt)

module _ (nodes : List Node) (start c : ℕ) (seen : List Bool) (queue : List ℕ)
    (inv : SearchInv nodes start seen (c ∷ queue)) where
  Edge-reached : (i : ℕ) → Edge nodes c i → Downstream nodes start i
  Edge-reached i edge = elim (inv.reached.0) [
    | inl same ↦ Downstream.direct (subst (λ k. Edge nodes k i) same edge)
    | inr below ↦ Downstream.further below edge
  ]

  pub hit_GateBelow : hits (id_at nodes c) nodes seen ≡ true → GateBelow nodes start
  hit_GateBelow h =
      let (i, n, there, new, edge, gate) = hits_sound (id_at nodes c) nodes seen h in
      (
        i,
        n,
        there,
        gate,
        λ same. let old = inv.started in let new' = subst (λ k. flag seen k ≡ false) same new in cc,
        Edge-reached i (n, there, edge),
      )

  module _ (miss : hits (id_at nodes c) nodes seen ≡ false) where
    abbrev seen' : List Bool
    seen' = marked (id_at nodes c) nodes seen

    abbrev queue' : List ℕ
    queue' = queue ++ added 0 (id_at nodes c) nodes seen

    flag_after :
        (i : ℕ) (n : Node)
        → get_elem? nodes i ≡ some n
        → flag seen' i ≡ (flag seen i || has_edge n (id_at nodes c))
    flag_after i n e = flag-marked (id_at nodes c) nodes seen i n inv.sized e

    flag_grows :
        (i : ℕ) (n : Node) → get_elem? nodes i ≡ some n → flag seen i ≡ true → flag seen' i ≡ true
    flag_grows i n e h = ground (arith, flag_after i n e)

    count_after :
        (j : ℕ) → count j queue' ≡ count j queue + count j (added 0 (id_at nodes c) nodes seen)
    count_after j = count-append j queue (added 0 (id_at nodes c) nodes seen)

    settled_after :
        (j : ℕ)
        → flag seen' j ≡ true
        → (1 ≤ count j queue')
          ⊎ ((i : ℕ) (n : Node)
              → get_elem? nodes i ≡ some n
              → has_edge n (id_at nodes j) ≡ true
              → flag seen' i ≡ true)
    settled_after j h =
        let bound = flag-lt seen' j h in
        let size = length-marked (id_at nodes c) nodes seen inv.sized in
        let (m, there) = get_elem?-lt nodes j (omega arith) in
        elim (Bool-cases (flag seen j)) [
          | inr new ↦
              let once = count-added 0 (id_at nodes c) nodes seen j m inv.sized there in
              let shift : 0 + j ≡ j = omega arith in
              let once' = rw shift at once in
              inl (ground (arith, flag_after j m there, count_after j))
          | inl old ↦ elim (Bool-cases (c == j)) [
            | inl popped ↦
                let same : c ≡ j = ground arith in
                inr (λ i n e edge.
                  let edge' = subst (λ k. has_edge n (id_at nodes k) ≡ true) (sym same) edge in
                  ground (arith, flag_after i n e))
            | inr other ↦ elim (inv.settled j old) [
              | inl waits ↦ inl (ground (arith, count_after j))
              | inr closed ↦ inr (λ i n e edge. flag_grows i n e (closed i n e edge))
            ]
          ]
        ]

    pub SearchInv-step : SearchInv nodes start seen' queue'
    SearchInv-step = record {
      sized = length-marked (id_at nodes c) nodes seen inv.sized;
      started =
          let bound = flag-lt seen start inv.started in
          let size = inv.sized in
          let (m, there) = get_elem?-lt nodes start (omega arith) in
          flag_grows start m there inv.started;
      reached =
          All-append (λ j. (j ≡ start) ⊎ Downstream nodes start j) queue
            (added 0 (id_at nodes c) nodes seen) inv.reached.1
            (added-All (λ j. (j ≡ start) ⊎ Downstream nodes start j) 0 (id_at nodes c) nodes seen
              (λ k n e edge.
                let shift : 0 + k ≡ k = omega arith in
                rw shift (inr (Edge-reached k (n, e, edge)))));
      no_gate = λ i n e marked_i other. elim (Bool-cases (flag seen i)) [
        | inl old ↦ inv.no_gate i n e old other
        | inr new ↦
            hits_complete (id_at nodes c) nodes seen i n inv.sized miss e new
              (ground (arith, flag_after i n e))
      ];
      settled = settled_after;
    }
