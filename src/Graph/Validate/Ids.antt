-- ===== src/Graph/Validate/Ids.antt =====
-- Node ids: the duplicate test and the lookup against indices.
use dstudio.Base.{
  ℕ, zero, suc, ◌<◌, ◌≡◌, refl, sym, ◌∙◌, ap, true, false, some, List, [], ◌∷◌, Str, str_eq, length,
  get_elem?, get_elem?-some-lt, any, any-true, arith, Bool-cases, inl, inr, eq_of_str_eq,
  str_eq_self,
}
use dstudio.Graph.Types.{Node}
use dstudio.Graph.Order.{id_at}
use dstudio.Graph.Order.Loop.{HasUniqueIds}
use dstudio.Graph.Validate.{find_node, is_missing}

-- The duplicate test of `check_node`, for all nodes.
abbrev pub IsDistinct : List Node → Type 0
IsDistinct [] = Unit
IsDistinct (n ∷ ns) = (any (λ m. str_eq n.id m.id) ns ≡ false) × IsDistinct ns

pub id_at-found : (ns : List Node) (i : ℕ) (n : Node) → get_elem? ns i ≡ some n → id_at ns i ≡ n.id
unfolding id_at
id_at-found ns i n e = rw (e, id_at) refl

any_id :
    (s : Str) (ns : List Node) (j : ℕ)
    → j < length ns
    → s ≡ id_at ns j
    → any (λ m. str_eq s m.id) ns ≡ true
unfolding id_at
any_id s [] j h e = elim h [ ]
any_id s (n ∷ ns) zero h e = rw (e, str_eq_self n.id) refl
any_id s (n ∷ ns) (suc j) h e = ground (arith, any_id s ns j)

pub unique_of_distinct : (ns : List Node) → IsDistinct ns → HasUniqueIds ns
unfolding id_at
unique_of_distinct [] h i j bi bj e = elim bi [ ]
unique_of_distinct (n ∷ ns) h zero zero bi bj e = refl
unique_of_distinct (n ∷ ns) h zero (suc j) bi bj e =
    let twice = any_id n.id ns j (omega arith) e in let once = h.0 in cc
unique_of_distinct (n ∷ ns) h (suc i) zero bi bj e =
    let twice = any_id n.id ns i (omega arith) (sym e) in let once = h.0 in cc
unique_of_distinct (n ∷ ns) h (suc i) (suc j) bi bj e =
    ap suc (unique_of_distinct ns h.1 i j (omega arith) (omega arith) e)

pub IsDistinct-of_unique : (ns : List Node) → HasUniqueIds ns → IsDistinct ns
unfolding id_at
IsDistinct-of_unique [] h = tt
IsDistinct-of_unique (n ∷ ns) h = (
  elim (Bool-cases (any (λ m. str_eq n.id m.id) ns)) [
    | inl twice ↦
        let (j, m, e, same) = any-true (λ m. str_eq n.id m.id) ns twice in
        let clash =
          h 0 (suc j) (omega arith) (omega (arith, get_elem?-some-lt ns j m e))
            (eq_of_str_eq n.id m.id same ∙ sym (id_at-found ns j m e)) in
        absurd (omega arith)
    | inr once ↦ once
  ],
  IsDistinct-of_unique ns
      (λ i j bi bj e. let up = h (suc i) (suc j) (omega arith) (omega arith) e in omega arith),
)

pub find_node_index :
    (ns : List Node) (s : Str)
    → is_missing (find_node ns s) ≡ false
    → (i : ℕ) × (i < length ns) × (s ≡ id_at ns i)
unfolding find_node id_at
find_node_index [] s h = cc
find_node_index (n ∷ ns) s h = elim (Bool-cases (str_eq n.id s)) [
  | inl hit ↦ (0, omega arith, sym (eq_of_str_eq n.id s hit))
  | inr miss ↦
      let rest : is_missing (find_node ns s) ≡ false = rw miss at h in
      let (i, bound, e) = find_node_index ns s rest in (suc i, omega arith, e)
]

pub find_node-id_at :
    (ns : List Node) (i : ℕ) (s : Str)
    → i < length ns
    → s ≡ id_at ns i
    → is_missing (find_node ns s) ≡ false
unfolding find_node id_at
find_node-id_at [] i s h e = elim h [ ]
find_node-id_at (n ∷ ns) zero s h e = rw (e, str_eq_self n.id) refl
find_node-id_at (n ∷ ns) (suc i) s h e = ground (arith, find_node-id_at ns i s)
