-- ===== src/Steering/Queue.antt =====
-- What holds of the queue of inputs in src/dstudio_steering.c, and that every call keeps it.
use dstudio.Base.{
  ℕ, zero, suc, ◌+◌, ◌≤◌, ◌≡◌, ◌≢◌, refl, ap, true, false, List, [], ◌∷◌, ◌++◌, some, none, Str,
  is_empty, length, get_elem?, set, map, All, All-append, arith, Bool-cases, inl, inr,
}
use dstudio.Graph.Paths.{id_valid}
use dstudio.Steering.{
  outstanding, max_outstanding, max_inputs, marked, first_waiting, weight, is_applied,
}
use dstudio.Steering.Types.{Delivery, pending, delivered, applied, Input, Steer}

abbrev pub IsPending : Input → Type 0
IsPending x = x.state ≡ pending

-- Applied inputs first, then at most one that is delivered, then those that are pending.
abbrev pub Behind : Delivery → Type 0 → Type 0 → Type 0
Behind applied ordered waiting = ordered
Behind delivered ordered waiting = waiting
Behind pending ordered waiting = waiting

abbrev pub IsOrdered : List Input → Type 0
IsOrdered [] = Unit
IsOrdered (x ∷ xs) = Behind x.state (IsOrdered xs) (All IsPending xs)

-- `x` is the first input that is not applied, and stands at `i`.
abbrev pub IsFirst : List Input → ℕ → Input → Type 0
IsFirst [] i x = ⊥
IsFirst (y ∷ ys) zero x = (y ≡ x) × (is_applied y.state ≡ false)
IsFirst (y ∷ ys) (suc i) x = (is_applied y.state ≡ true) × IsFirst ys i x

abbrev pub IsUnique : List Str → Type 0
IsUnique [] = Unit
IsUnique (id ∷ ids) = All (λ other. other ≢ id) ids × IsUnique ids

abbrev pub IsSound : Input → Type 0
IsSound x = (id_valid x.id ≡ true) × (is_empty x.text ≡ false)

abbrev pub ids : List Input → List Str
ids xs = map (λ x. x.id) xs

pub record IsQueue (s : Steer) : Type 0 where
  pub ordered : IsOrdered s.inputs
  pub unique : IsUnique (ids s.inputs)
  pub sound : All IsSound s.inputs
  pub room : outstanding s.inputs ≤ max_outstanding
  pub few : length s.inputs ≤ max_inputs

-- A queue by its head.
pub Behind-applied : (d : Delivery) (P Q : Type 0) → is_applied d ≡ true → Behind d P Q → P
Behind-applied applied P Q e h = h
Behind-applied delivered P Q e h = cc
Behind-applied pending P Q e h = cc

pub Behind-waiting : (d : Delivery) (P Q : Type 0) → is_applied d ≡ false → Behind d P Q → Q
Behind-waiting applied P Q e h = cc
Behind-waiting delivered P Q e h = h
Behind-waiting pending P Q e h = h

to_Behind :
    (d : Delivery) (P Q : Type 0)
    → (is_applied d ≡ true → P)
    → (is_applied d ≡ false → Q)
    → Behind d P Q
to_Behind applied P Q f g = f refl
to_Behind delivered P Q f g = g refl
to_Behind pending P Q f g = g refl

pending-IsOrdered : (xs : List Input) → All IsPending xs → IsOrdered xs
pending-IsOrdered [] h = tt
pending-IsOrdered (x ∷ xs) h = to_Behind x.state _ _ (λ e. pending-IsOrdered xs h.1) (λ e. h.1)

pub append-IsOrdered :
    (xs : List Input) (y : Input) → IsPending y → IsOrdered xs → IsOrdered (xs ++ y ∷ [])
append-IsOrdered [] y p h = to_Behind y.state _ _ (λ e. tt) (λ e. tt)
append-IsOrdered (x ∷ xs) y p h =
    to_Behind x.state _ _ (λ e. append-IsOrdered xs y p (Behind-applied x.state _ _ e h))
      (λ e. All-append IsPending xs (y ∷ []) (Behind-waiting x.state _ _ e h) (p, tt))

pub first_waiting-IsFirst :
    (k : ℕ) (xs : List Input) {j : ℕ} {x : Input}
    → first_waiting k xs ≡ some (j, x)
    → (i : ℕ) × (j ≡ k + i) × IsFirst xs i x
unfolding first_waiting
first_waiting-IsFirst k [] h = cc
first_waiting-IsFirst k (y ∷ ys) {j} {x} h = elim (Bool-cases (is_applied y.state)) [
  | inl past ↦
      let more : first_waiting (suc k) ys ≡ some (j, x) = ground arith in
      let (i, e, f) = first_waiting-IsFirst (suc k) ys more in (suc i, omega arith, (past, f))
  | inr here ↦ (0, ground arith, (ground arith, here))
]

weight-applied : (d : Delivery) → is_applied d ≡ true → weight d ≡ 0
weight-applied applied e = refl
weight-applied delivered e = cc
weight-applied pending e = cc

pub first_waiting-none : (k : ℕ) (xs : List Input) → first_waiting k xs ≡ none → outstanding xs ≡ 0
unfolding first_waiting outstanding
first_waiting-none k [] h = refl
first_waiting-none k (y ∷ ys) h = elim (Bool-cases (is_applied y.state)) [
  | inl past ↦
      let rest = first_waiting-none (suc k) ys (ground arith) in
      let none_here = weight-applied y.state past in omega arith
  | inr here ↦ ground arith
]

-- In an ordered queue a delivered input is the first that is not applied.
not_pending : (x : Input) → x.state ≡ delivered → IsPending x → ⊥
not_pending x d p = cc

All-IsPending_at :
    (xs : List Input) (i : ℕ) (x : Input) → All IsPending xs → get_elem? xs i ≡ some x → IsPending x
All-IsPending_at [] i x h e = cc
All-IsPending_at (y ∷ ys) zero x h e = cc
All-IsPending_at (y ∷ ys) (suc i) x h e = All-IsPending_at ys i x h.1 e

pub delivered-IsFirst :
    (xs : List Input) (i : ℕ) (x : Input)
    → IsOrdered xs
    → get_elem? xs i ≡ some x
    → x.state ≡ delivered
    → IsFirst xs i x
delivered-IsFirst [] i x h e d = cc
delivered-IsFirst (y ∷ ys) zero x h e d = (cc, ground arith)
delivered-IsFirst (y ∷ ys) (suc i) x h e d = elim (Bool-cases (is_applied y.state)) [
  | inl past ↦ (past, delivered-IsFirst ys i x (Behind-applied y.state _ _ past h) e d)
  | inr here ↦
      absurd (not_pending x d (All-IsPending_at ys i x (Behind-waiting y.state _ _ here h) e))
]

-- A change of state at the first input that is not applied.
pub mark_first-IsOrdered :
    (xs : List Input) (i : ℕ) (x : Input) (d : Delivery)
    → IsFirst xs i x
    → IsOrdered xs
    → IsOrdered (set xs i (marked d x))
mark_first-IsOrdered [] i x d f h = absurd f
mark_first-IsOrdered (y ∷ ys) zero x d f h =
    let waiting = Behind-waiting y.state _ _ f.1 h in
    to_Behind d _ _ (λ e. pending-IsOrdered ys waiting) (λ e. waiting)
mark_first-IsOrdered (y ∷ ys) (suc i) x d f h =
    to_Behind y.state _ _ (λ e. mark_first-IsOrdered ys i x d f.1 (Behind-applied y.state _ _ e h))
      (λ e. cc)

pub outstanding-mark_first :
    (xs : List Input) (i : ℕ) (x : Input) (d : Delivery)
    → IsFirst xs i x
    → outstanding (set xs i (marked d x)) + 1 ≡ outstanding xs + weight d
unfolding outstanding
outstanding-mark_first [] i x d f = absurd f
outstanding-mark_first (y ∷ ys) zero x d f =
    let one : weight y.state ≡ 1 = weight_waiting y.state f.1 in omega arith
  where
    weight_waiting : (d : Delivery) → is_applied d ≡ false → weight d ≡ 1
    weight_waiting applied e = cc
    weight_waiting delivered e = refl
    weight_waiting pending e = refl
outstanding-mark_first (y ∷ ys) (suc i) x d f = omega (arith, outstanding-mark_first ys i x d f.1)

pub first-get_elem? :
    (xs : List Input) (i : ℕ) (x : Input) → IsFirst xs i x → get_elem? xs i ≡ some x
first-get_elem? [] i x f = absurd f
first-get_elem? (y ∷ ys) zero x f = ap some f.0
first-get_elem? (y ∷ ys) (suc i) x f = first-get_elem? ys i x f.1
