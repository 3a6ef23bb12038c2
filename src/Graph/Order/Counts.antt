-- ===== src/Graph/Order/Counts.antt =====
-- What one round of the loop of `dtg_topological_order` does, in closed form.
use Prim.Native.Nat.add
use dstudio.Base.{
  ℕ, zero, suc, ◌+◌, ◌-◌, ◌<◌, ◌≡◌, refl, sym, ◌∙◌, Bool, true, false, not, ◌&&◌, ◌||◌, List, [],
  ◌∷◌, ◌++◌, append-nil, append_assoc, Str, str_eq, if◌then◌else◌, ◌==◌, count, count-append, any,
  arith, eq_of_str_eq, Bool-cases, inl, inr,
}
use dstudio.Graph.Types.{Dependency, Node}
use dstudio.Graph.Order.{settle, relax}

-- How many of the dependencies name `id`, and how many name none of `ids`.
abbrev pub matches : Str → List Dependency → ℕ
matches id [] = 0
matches id (d ∷ ds) = (if str_eq d.node_id id then 1 else 0) + matches id ds

abbrev pub contains : List Str → Str → Bool
contains ids s = any (str_eq s) ids

abbrev pub missing : List Str → List Dependency → ℕ
missing ids [] = 0
missing ids (d ∷ ds) = (if contains ids d.node_id then 0 else 1) + missing ids ds

pub contains-append :
    (xs ys : List Str) (s : Str) → contains (xs ++ ys) s ≡ (contains xs s || contains ys s)
contains-append [] ys s = refl
contains-append (x ∷ xs) ys s = ground (arith, contains-append xs ys s)

-- The index `i`, if its indegree falls from `k` to 0.
abbrev pub woken : ℕ → ℕ → ℕ → List ℕ
woken i k k' = if not (k == 0) && k' == 0 then i ∷ [] else []

-- A dependency that does not name the popped node changes nothing, and neither does an indegree of 0.
settle_pass :
    (i : ℕ) (id : Str) (d : Dependency) (ds : List Dependency) (k : ℕ) (queue : List ℕ)
    → (str_eq d.node_id id && not (k == 0)) ≡ false
    → settle i id (d ∷ ds) k queue ≡ settle i id ds k queue
unfolding settle
settle_pass i id d ds k queue h = rw h

settle_hit :
    (i : ℕ) (id : Str) (d : Dependency) (ds : List Dependency) (k : ℕ) (queue : List ℕ)
    → str_eq d.node_id id ≡ true
    → settle i id (d ∷ ds) (suc k) queue
      ≡ settle i id ds k (if k == 0 then queue ++ i ∷ [] else queue)
unfolding settle
settle_hit i id d ds k queue h =
    let pred : suc k - 1 ≡ k = omega arith in
    let nonzero : (suc k == 0) ≡ false = ground arith in rw (h, nonzero, pred)

woken_join :
    (i k m : ℕ) (queue : List ℕ)
    → (if k == 0 then queue ++ i ∷ [] else queue) ++ woken i k (k - m)
      ≡ queue ++ woken i (suc k) (suc k - (1 + m))
woken_join i k m queue = ground (arith, append-nil queue, append-nil (queue ++ i ∷ []))

abbrev Settles : ℕ → Str → List Dependency → ℕ → List ℕ → Type 0
Settles i id ds k queue =
    ((settle i id ds k queue).0 ≡ k - matches id ds)
    × ((settle i id ds k queue).1 ≡ queue ++ woken i k (k - matches id ds))

settle_lem :
    (i : ℕ) (id : Str) (ds : List Dependency) (k : ℕ) (queue : List ℕ) → Settles i id ds k queue
settle_lem i id [] k queue = unfold settle in (omega arith, ground (arith, append-nil queue))
settle_lem i id (d ∷ ds) zero queue =
    let same : (str_eq d.node_id id && false) ≡ false = ground arith in
    let (low, q) = settle_lem i id ds zero queue in
    rw (settle_pass i id d ds zero queue same) (omega (arith, low), q)
settle_lem i id (d ∷ ds) (suc k) queue = elim (Bool-cases (str_eq d.node_id id)) [
  | inl hit ↦
      let queue' = if k == 0 then queue ++ i ∷ [] else queue in
      let (low, q) = settle_lem i id ds k queue' in
      rw (settle_hit i id d ds k queue hit, hit)
        (omega (arith, low), q ∙ woken_join i k (matches id ds) queue)
  | inr miss ↦
      let same : (str_eq d.node_id id && not (suc k == 0)) ≡ false = rw miss in
      rw (settle_pass i id d ds (suc k) queue same, miss, add.zero)
        (settle_lem i id ds (suc k) queue)
]

abbrev pub lowered : Str → List Node → List ℕ → List ℕ
lowered id [] ks = []
lowered id (n ∷ ns) [] = []
lowered id (n ∷ ns) (k ∷ ks) = (k - matches id n.dependencies) ∷ lowered id ns ks

abbrev pub wakes : ℕ → Str → List Node → List ℕ → List ℕ
wakes i id [] ks = []
wakes i id (n ∷ ns) [] = []
wakes i id (n ∷ ns) (k ∷ ks) = woken i k (k - matches id n.dependencies) ++ wakes (suc i) id ns ks

pub relax_lem :
    (i : ℕ) (id : Str) (ns : List Node) (ks queue : List ℕ)
    → ((relax i id ns ks queue).0 ≡ lowered id ns ks)
      × ((relax i id ns ks queue).1 ≡ queue ++ wakes i id ns ks)
unfolding relax
relax_lem i id [] ks queue = (refl, sym (append-nil queue))
relax_lem i id (n ∷ ns) [] queue = (refl, sym (append-nil queue))
relax_lem i id (n ∷ ns) (k ∷ ks) queue =
    let (low, q) = settle_lem i id n.dependencies k queue in
    let (ih, ihq) = relax_lem (suc i) id ns ks (settle i id n.dependencies k queue).1 in
    (
      rw (low, ih) refl,
      rw (ihq, q)
          (append_assoc queue (woken i k (k - matches id n.dependencies)) (wakes (suc i) id ns ks)),
    )

pub wakes_above :
    (j i : ℕ) (id : Str) (ns : List Node) (ks : List ℕ) → j < i → count j (wakes i id ns ks) ≡ 0
wakes_above j i id [] ks h = refl
wakes_above j i id (n ∷ ns) [] h = refl
wakes_above j i id (n ∷ ns) (k ∷ ks) h =
    let rest = wakes_above j (suc i) id ns ks (omega arith) in
    let here : count j (woken i k (k - matches id n.dependencies)) ≡ 0 = ground arith in
    rw (count-append j (woken i k (k - matches id n.dependencies)) (wakes (suc i) id ns ks))
      (omega arith)

-- When a new id joins the ids, the dependencies that name it are no longer missing.
pub missing_snoc :
    (ids : List Str) (id : Str) (ds : List Dependency)
    → contains ids id ≡ false
    → missing (ids ++ id ∷ []) ds + matches id ds ≡ missing ids ds
missing_snoc ids id [] h = omega arith
missing_snoc ids id (d ∷ ds) h =
    let ih = missing_snoc ids id ds h in
    let more = contains-append ids (id ∷ []) d.node_id in
    elim (Bool-cases (str_eq d.node_id id)) [
      | inl hit ↦
          let fresh : contains ids d.node_id ≡ false = rw (eq_of_str_eq d.node_id id hit) h in
          ground arith
      | inr miss ↦ ground arith
    ]
