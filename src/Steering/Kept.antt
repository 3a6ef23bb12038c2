-- ===== src/Steering/Kept.antt =====
-- A submission keeps the invariant of the queue in src/dstudio_steering.c.
pub mod Pulls
use dstudio.Base.{
  cstr_copy, ℕ, zero, suc, ◌+◌, ◌-◌, ◌≤◌, ◌<◌, ◌≡◌, ◌≢◌, refl, sym, ap, subst, Bool, true, false,
  not, ◌||◌, List, [], ◌∷◌, ◌++◌, Option, some, none, Str, str_eq, is_empty, ◌==◌, leb, length,
  length-append, length-set, get_elem?, set, map-set, All, All-append, All-at, arith, Bool-cases,
  inl, inr, str_eq_of_eq, if-intro,
}
use dstudio.Graph.Paths.{id_valid}
use dstudio.Graph.Paths.Ids.{id_valid-component}
use dstudio.Steering.{
  find_input, outstanding, max_outstanding, max_inputs, new_input, retain, api_steer, marked,
  with_input, first_waiting, hand_out, deliver, confirm, open_turn, api_steer_pull, weight,
  confirm_state, pass_on, steer_prepare, echo,
}
use dstudio.Steering.Types.{
  Delivery, pending, delivered, applied, Input, Steer, Host, Request, Pull, Reply,
}
use dstudio.Steering.Cases.{acknowledge-intro, api_steer-intro, pull-intro}
use dstudio.Steering.Queue.{
  IsFirst, IsQueue, IsSound, IsUnique, append-IsOrdered, delivered-IsFirst, first-get_elem?,
  first_waiting-IsFirst, ids, mark_first-IsOrdered, outstanding-mark_first,
}

set-IsSound :
    (xs : List Input) (i : ℕ) (y : Input) → All IsSound xs → IsSound y → All IsSound (set xs i y)
set-IsSound [] i y h k = tt
set-IsSound (x ∷ xs) zero y h k = (k, h.1)
set-IsSound (x ∷ xs) (suc i) y h k = (h.0, set-IsSound xs i y h.1 k)

weight-le : (d : Delivery) → weight d ≤ 1
weight-le applied = omega arith
weight-le delivered = omega arith
weight-le pending = omega arith

pub mark_first-IsQueue :
    (s : Steer) (i : ℕ) (x : Input) (d : Delivery)
    → IsFirst s.inputs i x
    → IsQueue s
    → IsQueue (with_input i (marked d x) s)
mark_first-IsQueue s i x d f q =
    let at = first-get_elem? s.inputs i x f in
    record {
      ordered = mark_first-IsOrdered s.inputs i x d f q.ordered;
      unique =
          subst IsUnique (sym (map-set (λ (y : Input). y.id) s.inputs i x (marked d x) at refl))
            q.unique;
      sound = set-IsSound s.inputs i (marked d x) q.sound (All-at IsSound s.inputs i x q.sound at);
      room = omega (arith, outstanding-mark_first s.inputs i x d f, weight-le d, q.room);
      few = omega (arith, length-set s.inputs i (marked d x), q.few);
    }

-- A new input.
cstr_copy_short : (limit : ℕ) (s : Str) → length s ≤ limit → cstr_copy limit s ≡ s
unfolding cstr_copy
cstr_copy_short zero [] h = refl
cstr_copy_short zero (c ∷ s) h = absurd (omega arith)
cstr_copy_short (suc limit) [] h = refl
cstr_copy_short (suc limit) (c ∷ s) h = ap (λ t. c ∷ t) (cstr_copy_short limit s (omega arith))

new_input-id : (r : Request) → id_valid r.input_id ≡ true → (new_input r).id ≡ r.input_id
new_input-id r v = cstr_copy_short 64 r.input_id (id_valid-component r.input_id v).1

find_input-none :
    (id : Str) (xs : List Input) → find_input id xs ≡ none → All (λ other. other ≢ id) (ids xs)
unfolding find_input
find_input-none id [] h = tt
find_input-none id (x ∷ xs) h = elim (Bool-cases (str_eq x.id id)) [
  | inl same ↦ cc (rw same at h)
  | inr differs ↦ (λ e. cc (str_eq_of_eq x.id id e), find_input-none id xs (ground arith))
]

ids-append : (xs : List Input) (y : Input) → ids (xs ++ y ∷ []) ≡ ids xs ++ y.id ∷ []
ids-append [] y = refl
ids-append (x ∷ xs) y = ap (λ rest. x.id ∷ rest) (ids-append xs y)

IsUnique-append :
    (names : List Str) (id : Str)
    → All (λ other. other ≢ id) names
    → IsUnique names
    → IsUnique (names ++ id ∷ [])
IsUnique-append [] id new u = (tt, tt)
IsUnique-append (name ∷ names) id new u = (
  All-append (λ other. other ≢ name) names (id ∷ []) u.0 (λ e. new.0 (sym e), tt),
  IsUnique-append names id new.1 u.1,
)

outstanding-append :
    (xs : List Input) (y : Input) → outstanding (xs ++ y ∷ []) ≡ outstanding xs + weight y.state
unfolding outstanding
outstanding-append [] y = omega arith
outstanding-append (x ∷ xs) y = omega (arith, outstanding-append xs y)

accept-IsQueue :
    (r : Request) (s : Steer)
    → id_valid r.input_id ≡ true
    → is_empty r.text ≡ false
    → find_input r.input_id s.inputs ≡ none
    → outstanding s.inputs < max_outstanding
    → length s.inputs ≢ max_inputs
    → IsQueue s
    → IsQueue (record s { inputs = s.inputs ++ new_input r ∷ [] })
accept-IsQueue r s v full new room few q =
    let name = new_input-id r v in
    record {
      ordered = append-IsOrdered s.inputs (new_input r) refl q.ordered;
      unique =
          rw (ids-append s.inputs (new_input r), name)
            (IsUnique-append (ids s.inputs) r.input_id (find_input-none r.input_id s.inputs new)
              q.unique);
      sound = All-append IsSound s.inputs (new_input r ∷ []) q.sound ((rw name v, full), tt);
      room = omega (arith, outstanding-append s.inputs (new_input r));
      few = ground (arith, length-append s.inputs (new_input r ∷ []), q.few);
    }

abbrev KeepsQueue : Steer × Reply → Type 0
KeepsQueue o = IsQueue o.0

retain-IsQueue :
    (h : Host) (r : Request) (s : Steer) (found : Option Input)
    → id_valid r.input_id ≡ true
    → is_empty r.text ≡ false
    → find_input r.input_id s.inputs ≡ found
    → IsQueue s
    → IsQueue (retain h r s found).0
unfolding retain
retain-IsQueue h r s (some known) v full e q =
    if-intro KeepsQueue (str_eq known.text r.text) _ _ (λ _. q) (λ _. q)
retain-IsQueue h r s none v full e q =
    if-intro KeepsQueue (not s.is_open) _ _ (λ _. q)
      (λ _.
        if-intro KeepsQueue
          (leb max_outstanding (outstanding s.inputs) || length s.inputs == max_inputs) _ _ (λ _. q)
          (λ few. accept-IsQueue r s v full e (ground arith) (ground arith) q))

pub api_steer-IsQueue :
    (h : Host) (r : Option Request) (s : Steer) → IsQueue s → IsQueue (api_steer h r s).0
api_steer-IsQueue h none s q = unfold api_steer in q
api_steer-IsQueue h (some r) s q =
    api_steer-intro KeepsQueue h r s (λ _. q)
      (λ v full. retain-IsQueue h r s (find_input r.input_id s.inputs) v full refl q)
