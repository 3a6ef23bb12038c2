-- ===== src/Graph/Order/Loop.antt =====
-- The invariant of the loop of `dtg_topological_order`, and that every round keeps it.
use dstudio.Base.{
  ℕ, zero, suc, ◌+◌, ◌-◌, ◌≤◌, ◌<◌, ◌≡◌, false, some, List, [], ◌∷◌, ◌++◌, append_assoc, Str,
  if◌then◌else◌, ◌==◌, length, get_elem?, count, count-append, arith,
}
use dstudio.Graph.Types.{Node}
use dstudio.Graph.Order.{id_at}
use dstudio.Graph.Order.Counts.{
  matches, contains, missing, missing_snoc, woken, lowered, wakes, wakes_above,
}

-- Distinct nodes have distinct ids.
abbrev pub HasUniqueIds : List Node → Type 0
HasUniqueIds nodes =
    (i j : ℕ) → i < length nodes → j < length nodes → id_at nodes i ≡ id_at nodes j → i ≡ j

-- The indegree of each node counts its dependencies that are not among the emitted ids, and the
-- node stands in the order or in the queue, once, exactly when that is 0. `i` is the index of the
-- first node of the list, and `listed` is the order with the queue behind it.
abbrev pub IsCounted : ℕ → List Str → List ℕ → List Node → List ℕ → Type 0
IsCounted i ids listed [] [] = Unit
IsCounted i ids listed [] (k ∷ ks) = ⊥
IsCounted i ids listed (n ∷ ns) [] = ⊥
IsCounted i ids listed (n ∷ ns) (k ∷ ks) =
    (k ≡ missing ids n.dependencies)
    × (count i listed ≡ (if k == 0 then 1 else 0))
    × IsCounted (suc i) ids listed ns ks

-- What the newly woken indices are, counted.
abbrev IsWoken : ℕ → Str → List ℕ → List Node → List ℕ → Type 0
IsWoken i id woke [] ks = Unit
IsWoken i id woke (n ∷ ns) [] = Unit
IsWoken i id woke (n ∷ ns) (k ∷ ks) =
    (count i woke ≡ count i (woken i k (k - matches id n.dependencies)))
    × IsWoken (suc i) id woke ns ks

pub wakes-IsWoken :
    (i : ℕ) (id : Str) (front : List ℕ) (ns : List Node) (ks : List ℕ)
    → ((j : ℕ) → i ≤ j → count j front ≡ 0)
    → IsWoken i id (front ++ wakes i id ns ks) ns ks
wakes-IsWoken i id front [] ks h = tt
wakes-IsWoken i id front (n ∷ ns) [] h = tt
wakes-IsWoken i id front (n ∷ ns) (k ∷ ks) h =
    let here = woken i k (k - matches id n.dependencies) in
    let more = wakes (suc i) id ns ks in
    (
      rw (count-append i front (here ++ more), count-append i here more)
          (omega (arith, h i (omega arith), wakes_above i (suc i) id ns ks (omega arith))),
      rw (← append_assoc front here more) (
          wakes-IsWoken (suc i) id (front ++ here) ns ks (λ j below.
            rw (count-append j front here) (let old = h j (omega arith) in ground arith))),
    )

pub IsCounted-step :
    (i : ℕ) (ids : List Str) (id : Str) (listed woke : List ℕ) (ns : List Node) (ks : List ℕ)
    → contains ids id ≡ false
    → IsCounted i ids listed ns ks
    → IsWoken i id woke ns ks
    → IsCounted i (ids ++ id ∷ []) (listed ++ woke) ns (lowered id ns ks)
IsCounted-step i ids id listed woke [] [] fresh h w = tt
IsCounted-step i ids id listed woke [] (k ∷ ks) fresh h w = absurd h
IsCounted-step i ids id listed woke (n ∷ ns) [] fresh h w = absurd h
IsCounted-step i ids id listed woke (n ∷ ns) (k ∷ ks) fresh h w =
    let (degree, once, rest) = h in
    let (new, more) = w in
    (
      omega (arith, degree, missing_snoc ids id n.dependencies fresh),
      rw (count-append i listed woke) (ground (arith, once, new)),
      IsCounted-step (suc i) ids id listed woke ns ks fresh rest more,
    )

-- The facts at one index.
pub IsCounted-at :
    (i : ℕ) (ids : List Str) (listed : List ℕ) (ns : List Node) (ks : List ℕ) (j : ℕ) (n : Node)
    → IsCounted i ids listed ns ks
    → get_elem? ns j ≡ some n
    → count (i + j) listed ≡ (if missing ids n.dependencies == 0 then 1 else 0)
IsCounted-at i ids listed [] ks j n h e = cc
IsCounted-at i ids listed (m ∷ ns) [] j n h e = absurd h
IsCounted-at i ids listed (m ∷ ns) (k ∷ ks) zero n h e =
    let at : i + 0 ≡ i = omega arith in let same : m ≡ n = cc in rw (at, ← same, ← h.0) h.1
IsCounted-at i ids listed (m ∷ ns) (k ∷ ks) (suc j) n h e =
    let at : i + suc j ≡ suc i + j = omega arith in
    rw at (IsCounted-at (suc i) ids listed ns ks j n h.2 e)
