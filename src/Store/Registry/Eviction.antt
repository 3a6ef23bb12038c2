-- ===== src/Store/Registry/Eviction.antt =====
-- Which slot `dtg_registry_allocate` hands out.
use dstudio.Base.{
  ℕ, zero, suc, ◌+◌, ◌-◌, ◌^◌, ◌<◌, ◌≤◌, ◌≡◌, ◌≢◌, ◌⊎◌, inl, inr, refl, sym, ◌∙◌, ap, subst, true,
  List, [], ◌∷◌, Option, some, none, ◌==◌, ==_iff, arith, Bool-cases, Option-cases, get_elem?, set,
}
use dstudio.Graph.Transition.{graph_terminal}
use dstudio.Store.Types.{Runtime}
use dstudio.Store.Registry.{find_victim, free_slot, is_victim, registry_allocate}

-- `rest` is what stands in `slots` from index `k` on.
abbrev IsRest : List (Option Runtime) → ℕ → List (Option Runtime) → Type 0
IsRest slots k rest = (j : ℕ) → get_elem? slots (k + j) ≡ get_elem? rest j

IsRest-head :
    (slots : List (Option Runtime)) (k : ℕ) (s : Option Runtime) (rest : List (Option Runtime))
    → IsRest slots k (s ∷ rest)
    → get_elem? slots k ≡ some s
IsRest-head slots k s rest h =
    let shift : k + 0 ≡ k = omega arith in ap (get_elem? slots) (sym shift) ∙ h 0

IsRest-tail :
    (slots : List (Option Runtime)) (k : ℕ) (s : Option Runtime) (rest : List (Option Runtime))
    → IsRest slots k (s ∷ rest)
    → IsRest slots (suc k) rest
IsRest-tail slots k s rest h j =
    let one : suc k + j ≡ k + suc j = omega arith in ap (get_elem? slots) one ∙ h (suc j)

-- The used slots among the first `k`, and what holds of their runtimes.
abbrev pub UsedBelow : ℕ → (Runtime → Type 0) → List (Option Runtime) → Type 0
UsedBelow k P slots = (j : ℕ) (rt : Runtime) → j < k → get_elem? slots j ≡ some (some rt) → P rt

extend :
    (P : Runtime → Type 0) (slots : List (Option Runtime)) (k : ℕ) (s : Option Runtime)
    → get_elem? slots k ≡ some s
    → UsedBelow k P slots
    → ((rt : Runtime) → s ≡ some rt → P rt)
    → UsedBelow (suc k) P slots
extend P slots k s e before here j rt lt at_j = elim (Bool-cases (j == k)) [
  | inl same ↦
      let eq : j ≡ k = (==_iff j k).0 same in
      let swapped : get_elem? slots k ≡ some (some rt) = rw eq at at_j in here rt cc
  | inr other ↦
      let apart : k ≢ j = λ h. let hit = (==_iff j k).1 (sym h) in cc in
      before j rt (omega (arith, apart, lt)) at_j
]

-- No slot is free.
abbrev pub AllUsed : List (Option Runtime) → Type 0
AllUsed slots =
    (j : ℕ) (s : Option Runtime) → get_elem? slots j ≡ some s → (rt : Runtime) × (s ≡ some rt)

free_slot-some :
    (slots : List (Option Runtime)) (k : ℕ) (rest : List (Option Runtime)) (i : ℕ)
    → IsRest slots k rest
    → free_slot k rest ≡ some i
    → get_elem? slots i ≡ some none
unfolding free_slot
free_slot-some slots k [] i h e = cc
free_slot-some slots k (none ∷ rest) i h e =
    let same : k ≡ i = cc in rw (sym same) (IsRest-head slots k none rest h)
free_slot-some slots k (some rt ∷ rest) i h e =
    free_slot-some slots (suc k) rest i (IsRest-tail slots k (some rt) rest h) e

free_slot-none : (rest : List (Option Runtime)) (k : ℕ) → free_slot k rest ≡ none → AllUsed rest
unfolding free_slot
free_slot-none [] k e j s at_j = cc
free_slot-none (none ∷ rest) k e j s at_j = cc
free_slot-none (some rt ∷ rest) k e zero s at_j = (rt, cc)
free_slot-none (some rt ∷ rest) k e (suc j) s at_j = free_slot-none rest (suc k) e j s at_j

abbrev pub NotBefore : ℕ → Runtime → Type 0
NotBefore oldest rt = graph_terminal rt.graph.state ≡ true → oldest ≤ rt.loaded_ms

-- The state of the second loop before slot `k`.
abbrev pub IsVictim : List (Option Runtime) → ℕ → ℕ → Option ℕ → Type 0
IsVictim slots k oldest none = (oldest ≡ 2 ^ 63 - 1) × UsedBelow k (NotBefore oldest) slots
IsVictim slots k oldest (some i) =
    ((rt : Runtime) × (get_elem? slots i ≡ some (some rt))
      × (graph_terminal rt.graph.state ≡ true)
      × (rt.loaded_ms ≡ oldest))
    × UsedBelow k (NotBefore oldest) slots

below_of :
    (slots : List (Option Runtime)) (k oldest : ℕ) (victim : Option ℕ)
    → IsVictim slots k oldest victim
    → UsedBelow k (NotBefore oldest) slots
below_of slots k oldest none (e, below) = below
below_of slots k oldest (some i) (found, below) = below

keep-IsVictim :
    (slots : List (Option Runtime)) (k k' oldest : ℕ) (victim : Option ℕ)
    → IsVictim slots k oldest victim
    → UsedBelow k' (NotBefore oldest) slots
    → IsVictim slots k' oldest victim
keep-IsVictim slots k k' oldest none (e, below) more = (e, more)
keep-IsVictim slots k k' oldest (some i) (found, below) more = (found, more)

find_victim-IsVictim :
    (slots : List (Option Runtime)) (k : ℕ) (rest : List (Option Runtime)) (oldest : ℕ)
    (victim : Option ℕ)
    → IsRest slots k rest
    → IsVictim slots k oldest victim
    → (l oldest' : ℕ) × (get_elem? slots l ≡ none)
      × IsVictim slots l oldest' (find_victim k rest oldest victim)
unfolding find_victim
find_victim-IsVictim slots k [] oldest victim h v =
    let shift : k + 0 ≡ k = omega arith in (k, oldest, ap (get_elem? slots) (sym shift) ∙ h 0, v)
find_victim-IsVictim slots k (none ∷ rest) oldest victim h v =
    let e = IsRest-head slots k none rest h in
    let more =
      extend (NotBefore oldest) slots k none e (below_of slots k oldest victim v) (λ rt bad. cc) in
    find_victim-IsVictim slots (suc k) rest oldest victim (IsRest-tail slots k none rest h)
      (keep-IsVictim slots k (suc k) oldest victim v more)
find_victim-IsVictim slots k (some rt ∷ rest) oldest victim h v =
    let e = IsRest-head slots k (some rt) rest h in
    let below = below_of slots k oldest victim v in
    let tail = IsRest-tail slots k (some rt) rest h in
    elim (Bool-cases (is_victim oldest (some rt))) [
      | inl hit ↦
          let done : graph_terminal rt.graph.state ≡ true = ground arith in
          let less : rt.loaded_ms < oldest = ground arith in
          let more =
            extend (NotBefore rt.loaded_ms) slots k (some rt) e
              (λ j x lt at_j end. omega (arith, less, below j x lt at_j end))
              (λ x same end.
                let twin : rt ≡ x = cc in
                subst (λ y. rt.loaded_ms ≤ y.loaded_ms) twin (omega arith)) in
          rw (find_victim, hit)
            (find_victim-IsVictim slots (suc k) rest rt.loaded_ms (some k) tail
              ((rt, e, done, refl), more))
      | inr miss ↦
          let more = extend (NotBefore oldest) slots k (some rt) e below (λ x same end.
            let twin : x ≡ rt = cc in
            let end' : graph_terminal rt.graph.state ≡ true =
              ap (λ y. graph_terminal y.graph.state) (sym twin) ∙ end in
            let late : oldest ≤ rt.loaded_ms = ground arith in
            subst (λ y. oldest ≤ y.loaded_ms) (sym twin) late) in
          rw (find_victim, miss)
            (find_victim-IsVictim slots (suc k) rest oldest victim tail
              (keep-IsVictim slots k (suc k) oldest victim v more))
    ]

abbrev pub AllLater : ℕ → List (Option Runtime) → Type 0
AllLater oldest slots =
    (j : ℕ) (rt : Runtime) → get_elem? slots j ≡ some (some rt) → NotBefore oldest rt

-- A slot that is handed out as it is, or cleared of the terminal runtime that was loaded first.
abbrev pub IsAllocated : List (Option Runtime) → Option (ℕ × List (Option Runtime)) → Type 0
IsAllocated slots none = AllUsed slots × AllLater (2 ^ 63 - 1) slots
IsAllocated slots (some (i, slots')) =
    ((slots' ≡ slots) × (get_elem? slots i ≡ some none))
    ⊎ (AllUsed slots
        × (slots' ≡ set slots i none)
        × ((rt : Runtime) × (get_elem? slots i ≡ some (some rt))
            × (graph_terminal rt.graph.state ≡ true)
            × AllLater rt.loaded_ms slots))

none-lt :
    {A : Type 0} (xs : List A) (l j : ℕ) (x : A)
    → get_elem? xs l ≡ none
    → get_elem? xs j ≡ some x
    → j < l
none-lt [] l j x h e = cc
none-lt (y ∷ xs) zero j x h e = cc
none-lt (y ∷ xs) (suc l) zero x h e = omega arith
none-lt (y ∷ xs) (suc l) (suc j) x h e = omega (arith, none-lt xs l j x h e)

from_victim :
    (slots : List (Option Runtime)) (l oldest : ℕ) (victim : Option ℕ)
    → AllUsed slots
    → get_elem? slots l ≡ none
    → IsVictim slots l oldest victim
    → IsAllocated slots (elim victim as (λ v. Option (ℕ × List (Option Runtime))) [
      | none ↦ none
      | some i ↦ some (i, set slots i none)
    ])
from_victim slots l oldest none used end (e, below) =
    (used, λ j rt at_j. rw e at (below j rt (none-lt slots l j (some rt) end at_j) at_j))
from_victim slots l oldest (some i) used end ((rt, at_i, done, e), below) = inr (
  used,
  refl,
  (rt, at_i, done, λ j x at_j. rw (← e) at (below j x (none-lt slots l j (some x) end at_j) at_j)),
)

-- A slot is handed out that is free; or, where no slot is, one with a terminal graph, which is
-- cleared, and then no other terminal graph was loaded before it. No slot is handed out only where
-- all are used and no terminal graph was loaded before the time 2 ^ 63 - 1.
pub registry_allocate-IsAllocated :
    (slots : List (Option Runtime)) → IsAllocated slots (registry_allocate slots)
unfolding registry_allocate
registry_allocate-IsAllocated slots =
    let whole : IsRest slots 0 slots =
      λ j. let shift : 0 + j ≡ j = omega arith in ap (get_elem? slots) shift in
    elim (Option-cases (free_slot 0 slots)) [
      | inr (i, free) ↦
          rw (registry_allocate, free) (inl (refl, free_slot-some slots 0 slots i whole free))
      | inl full ↦
          let used = free_slot-none slots 0 full in
          let start : IsVictim slots 0 (2 ^ 63 - 1) none =
            (refl, λ j rt lt. absurd (omega (arith, lt))) in
          let (l, oldest, end, v) =
            find_victim-IsVictim slots 0 slots (2 ^ 63 - 1) none whole start in
          rw (registry_allocate, full)
            (from_victim slots l oldest (find_victim 0 slots (2 ^ 63 - 1) none) used end v)
    ]
