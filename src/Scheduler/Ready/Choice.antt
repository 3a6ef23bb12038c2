-- ===== src/Scheduler/Ready/Choice.antt =====
-- What `dtg_scheduler_next_ready` chooses.
use dstudio.Base.{
  ℕ, zero, suc, ◌+◌, ◌<◌, ◌≡◌, inl, inr, sym, ◌∙◌, ap, Bool, true, false, ◌&&◌, ◌||◌, List, [], ◌∷◌,
  Option, some, none, ◌==◌, ltb, arith, Bool-cases, get_elem?, subst, ◌≢◌, ==_iff, length,
  get_elem?-some-lt,
}
use dstudio.Graph.Types.{ℤ, pos, negsuc, Node, Graph}
use dstudio.Scheduler.Ready.{beats, eqℤ, ltℤ, may_dispatch, next_ready, node_class, outranks, pick}

-- The order of `outranks`, on the three numbers.
abbrev ranks : ℕ → ℤ → ℕ → ℕ → ℤ → ℕ → Bool
ranks c p t c' p' t' = ltb c' c || c == c' && ltℤ p' p || c == c' && eqℤ p p' && ltb t t'

-- What does not rank before `b` does not rank before what ranks before `b`.
ranks_trans :
    (c c' c'' : ℕ) (p p' p'' : ℤ) (t t' t'' : ℕ)
    → ranks c p t c' p' t' ≡ true
    → ranks c'' p'' t'' c' p' t' ≡ false
    → ranks c'' p'' t'' c p t ≡ false
unfolding ltℤ eqℤ
ranks_trans c c' c'' (pos p) (pos p') (pos p'') t t' t'' h k = ground arith
ranks_trans c c' c'' (pos p) (pos p') (negsuc p'') t t' t'' h k = ground arith
ranks_trans c c' c'' (pos p) (negsuc p') (pos p'') t t' t'' h k = ground arith
ranks_trans c c' c'' (pos p) (negsuc p') (negsuc p'') t t' t'' h k = ground arith
ranks_trans c c' c'' (negsuc p) (pos p') (pos p'') t t' t'' h k = ground arith
ranks_trans c c' c'' (negsuc p) (pos p') (negsuc p'') t t' t'' h k = ground arith
ranks_trans c c' c'' (negsuc p) (negsuc p') (pos p'') t t' t'' h k = ground arith
ranks_trans c c' c'' (negsuc p) (negsuc p') (negsuc p'') t t' t'' h k = ground arith

ranks_irrefl : (c : ℕ) (p : ℤ) (t : ℕ) → ranks c p t c p t ≡ false
unfolding ltℤ eqℤ
ranks_irrefl c (pos p) t = ground arith
ranks_irrefl c (negsuc p) t = ground arith

ranks_above :
    (c c' c'' : ℕ) (p p' p'' : ℤ) (t t' t'' : ℕ)
    → ranks c p t c' p' t' ≡ true
    → ranks c'' p'' t'' c' p' t' ≡ false
    → ranks c p t c'' p'' t'' ≡ true
unfolding ltℤ eqℤ
ranks_above c c' c'' (pos p) (pos p') (pos p'') t t' t'' h k = ground arith
ranks_above c c' c'' (pos p) (pos p') (negsuc p'') t t' t'' h k = ground arith
ranks_above c c' c'' (pos p) (negsuc p') (pos p'') t t' t'' h k = ground arith
ranks_above c c' c'' (pos p) (negsuc p') (negsuc p'') t t' t'' h k = ground arith
ranks_above c c' c'' (negsuc p) (pos p') (pos p'') t t' t'' h k = ground arith
ranks_above c c' c'' (negsuc p) (pos p') (negsuc p'') t t' t'' h k = ground arith
ranks_above c c' c'' (negsuc p) (negsuc p') (pos p'') t t' t'' h k = ground arith
ranks_above c c' c'' (negsuc p) (negsuc p') (negsuc p'') t t' t'' h k = ground arith

outranks_trans : (n b m : Node) → outranks n b ≡ true → outranks m b ≡ false → outranks m n ≡ false
unfolding outranks
outranks_trans n b m =
    ranks_trans (node_class n) (node_class b) (node_class m) n.priority b.priority m.priority
      n.ready_ms b.ready_ms m.ready_ms

outranks_above : (n b m : Node) → outranks n b ≡ true → outranks m b ≡ false → outranks n m ≡ true
unfolding outranks
outranks_above n b m =
    ranks_above (node_class n) (node_class b) (node_class m) n.priority b.priority m.priority
      n.ready_ms b.ready_ms m.ready_ms

outranks_irrefl : (n : Node) → outranks n n ≡ false
unfolding outranks
outranks_irrefl n = ranks_irrefl (node_class n) n.priority n.ready_ms

-- The best of the nodes that may run, among the first `k`.
pub record IsBest (may : Node → Bool) (nodes : List Node) (k i : ℕ) (n : Node) : Type 0 where
  pub there : get_elem? nodes i ≡ some n
  pub fit : may n ≡ true
  pub top :
      (j : ℕ) (m : Node) → j < k → get_elem? nodes j ≡ some m → may m ≡ true → outranks m n ≡ false
  pub first :
      (j : ℕ) (m : Node) → j < i → get_elem? nodes j ≡ some m → may m ≡ true → outranks n m ≡ true

abbrev pub IsChoice : (Node → Bool) → List Node → ℕ → Option (ℕ × Node) → Type 0
IsChoice may nodes k none = (j : ℕ) (m : Node) → j < k → get_elem? nodes j ≡ some m → may m ≡ false
IsChoice may nodes k (some (i, n)) = (i < k) × IsBest may nodes k i n

module _ (may : Node → Bool) (nodes : List Node) (k : ℕ) (x : Node)
    (e : get_elem? nodes k ≡ some x) where
  -- What holds of the first `k` nodes and of node `k` holds of the first `k + 1`.
  extend :
      (P : Node → Type 0)
      → ((j : ℕ) (m : Node) → j < k → get_elem? nodes j ≡ some m → P m)
      → P x
      → (j : ℕ) (m : Node) → j < suc k
      → get_elem? nodes j ≡ some m
      → P m
  extend P before here j m lt at_j = elim (Bool-cases (j == k)) [
    | inl same ↦
        let eq : j ≡ k = (==_iff j k).0 same in
        let swapped : get_elem? nodes k ≡ some m = rw eq at at_j in
        let twin : x ≡ m = cc in subst P twin here
    | inr other ↦
        let apart : k ≢ j = λ h. let hit = (==_iff j k).1 (sym h) in cc in
        before j m (omega (arith, apart, lt)) at_j
  ]

  stay-IsChoice :
      (best : Option (ℕ × Node))
      → (may x && beats x best) ≡ false
      → IsChoice may nodes k best
      → IsChoice may nodes (suc k) best
  unfolding beats
  stay-IsChoice none h choice = extend (λ m. may m ≡ false) choice (ground arith)
  stay-IsChoice (some (i, n)) h (bound, best) = (
    omega (arith, bound),
    record {
      there = best.there;
      fit = best.fit;
      top = extend (λ m. may m ≡ true → outranks m n ≡ false) best.top λ fit. ground arith;
      first = best.first;
    },
  )

  new-IsChoice :
      (best : Option (ℕ × Node))
      → may x ≡ true
      → beats x best ≡ true
      → IsChoice may nodes k best
      → IsChoice may nodes (suc k) (some (k, x))
  unfolding beats
  new-IsChoice none fit h choice = (
    omega arith,
    record {
      there = e;
      fit = fit;
      top =
          extend (λ m. may m ≡ true → outranks m x ≡ false)
            (λ j m lt at_j fit_m. let never = choice j m lt at_j in cc)
            (λ fit_x. outranks_irrefl x);
      first = λ j m lt at_j fit_m. let never = choice j m lt at_j in cc;
    },
  )
  new-IsChoice (some (i, n)) fit h (bound, best) = (
    omega arith,
    record {
      there = e;
      fit = fit;
      top =
          extend (λ m. may m ≡ true → outranks m x ≡ false)
            (λ j m lt at_j fit_m. outranks_trans x n m h (best.top j m lt at_j fit_m))
            (λ fit_x. outranks_irrefl x);
      first = λ j m lt at_j fit_m. outranks_above x n m h (best.top j m lt at_j fit_m);
    },
  )

pick-IsChoice :
    (may : Node → Bool) (nodes : List Node) (k : ℕ) (rest : List Node) (best : Option (ℕ × Node))
    → ((j : ℕ) → get_elem? nodes (k + j) ≡ get_elem? rest j)
    → IsChoice may nodes k best
    → (l : ℕ) × (get_elem? nodes l ≡ none) × IsChoice may nodes l (pick may k rest best)
unfolding pick
pick-IsChoice may nodes k [] best suffix choice =
    let shift : k + 0 ≡ k = omega arith in (k, ap (get_elem? nodes) (sym shift) ∙ suffix 0, choice)
pick-IsChoice may nodes k (x ∷ rest) best suffix choice =
    let shift : k + 0 ≡ k = omega arith in
    let here : get_elem? nodes k ≡ some x = ap (get_elem? nodes) (sym shift) ∙ suffix 0 in
    let suffix' : (j : ℕ) → get_elem? nodes (suc k + j) ≡ get_elem? rest j = λ j.
      let one : suc k + j ≡ k + suc j = omega arith in ap (get_elem? nodes) one ∙ suffix (suc j) in
    elim (Bool-cases (may x && beats x best)) [
      | inl hit ↦
          let fit : may x ≡ true = ground arith in
          let beaten : beats x best ≡ true = ground arith in
          rw (pick, hit)
            (pick-IsChoice may nodes (suc k) rest (some (k, x)) suffix'
              (new-IsChoice may nodes k x here best fit beaten choice))
      | inr miss ↦
          rw (pick, miss)
            (pick-IsChoice may nodes (suc k) rest best suffix'
              (stay-IsChoice may nodes k x here best miss choice))
    ]

none-length :
    (nodes : List Node) (l j : ℕ) (m : Node)
    → get_elem? nodes l ≡ none
    → get_elem? nodes j ≡ some m
    → j < l
none-length [] l j m h e = cc
none-length (x ∷ nodes) zero j m h e = cc
none-length (x ∷ nodes) (suc l) zero m h e = omega arith
none-length (x ∷ nodes) (suc l) (suc j) m h e = omega (arith, none-length nodes l j m h e)

whole-IsChoice :
    (may : Node → Bool) (nodes : List Node) (l : ℕ) (best : Option (ℕ × Node))
    → get_elem? nodes l ≡ none
    → IsChoice may nodes l best
    → IsChoice may nodes (length nodes) best
whole-IsChoice may nodes l none end choice =
    λ j m lt at_j. choice j m (none-length nodes l j m end at_j) at_j
whole-IsChoice may nodes l (some (i, n)) end (bound, best) = (
  get_elem?-some-lt nodes i n best.there,
  record {
    there = best.there;
    fit = best.fit;
    top = λ j m lt at_j. best.top j m (none-length nodes l j m end at_j) at_j;
    first = best.first;
  },
)

-- The scheduler chooses no node exactly where none may be dispatched. Otherwise its choice may be
-- dispatched, no node that may be dispatched outranks it, and it outranks those before it: by
-- class, then by priority, then by the time at which it was ready.
pub next_ready-IsChoice :
    (can_dispatch : Node → Bool) (registry : List Graph) (g : Graph)
    → IsChoice
        (may_dispatch can_dispatch registry g)
        g.nodes
        (length g.nodes)
        (next_ready can_dispatch registry g)
unfolding next_ready
next_ready-IsChoice can_dispatch registry g =
    let may = may_dispatch can_dispatch registry g in
    let suffix : (j : ℕ) → get_elem? g.nodes (0 + j) ≡ get_elem? g.nodes j =
      λ j. let shift : 0 + j ≡ j = omega arith in ap (get_elem? g.nodes) shift in
    let start : IsChoice may g.nodes 0 none = λ j m lt. absurd (omega (arith, lt)) in
    let (l, end, choice) = pick-IsChoice may g.nodes 0 g.nodes none suffix start in
    whole-IsChoice may g.nodes l (pick may 0 g.nodes none) end choice
