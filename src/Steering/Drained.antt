-- ===== src/Steering/Drained.antt =====
-- A runtime that pulls until nothing is left, from the queue of src/dstudio_steering.c.
pub mod Served
use dstudio.Base.{
  ℕ, zero, suc, ◌-◌, ◌≤◌, ◌<◌, ◌≡◌, ◌≢◌, refl, sym, ap, ◌∙◌, subst, Bool, true, false, List, [],
  ◌∷◌, ◌++◌, append-nil, append_assoc, some, none, Str, str_eq_self, is_empty, get_elem?,
  get_elem?-set, set, set-set, map-set, All, arith, Option-cases, inl, inr,
}
use dstudio.Steering.{
  outstanding, marked, with_input, first_waiting, hand_out, deliver, confirm, acknowledge,
  api_steer_pull, is_applied, pass_on, echo, steer_active, weight, confirm_state,
}
use dstudio.Steering.Types.{
  Delivery, pending, delivered, applied, Input, Steer, Host, Pull, Reply, refused, status, opened,
  delivery, drained,
}
use dstudio.Steering.Echoes.{contents, echoes, mark_first-Continues}
use dstudio.Steering.Kept.{mark_first-IsQueue}
use dstudio.Steering.Queue.{
  IsFirst, IsQueue, first-get_elem?, first_waiting-IsFirst, first_waiting-none,
  outstanding-mark_first,
}

abbrev pub next_pull : ℕ → Steer → Pull
next_pull ack s = record { key = s.key; turn = s.turn; ack = ack; finish = 1 }

abbrev pub follow : Reply → Steer → (ℕ → Steer × Str × Bool) → Steer × Str × Bool
follow (delivery i text) s more = more i
follow drained s more = (s, [], true)
follow (refused why) s more = (s, [], false)
follow (status turn active inputs) s more = (s, [], false)
follow (opened turn) s more = (s, [], false)

abbrev pub go_on : Steer × Str × Reply → (ℕ → Steer → Steer × Str × Bool) → Steer × Str × Bool
go_on (s, out, reply) more =
    let (s', later, done) = follow reply s (λ i. more i s) in (s', out ++ later, done)

-- Pulls with the acknowledgement of what the one before was handed. The flag tells whether the
-- loop ended since nothing was left.
unfoldable pub drain : ℕ → Host → ℕ → Steer → Steer × Str × Bool
drain zero h ack s = (s, [], false)
drain (suc fuel) h ack s =
    go_on (api_steer_pull h (some (next_pull ack s)) s) (λ i t. drain fuel h i t)

abbrev pub IsApplied : Input → Type 0
IsApplied x = x.state ≡ applied

abbrev pub IsReady : Input → Type 0
IsReady x = x.state ≢ delivered

pub record IsDrained (s : Steer) (out : Str) (r : Steer × Str × Bool) : Type 0 where
  pub ended : r.2 ≡ true
  pub closed : r.0.is_open ≡ false
  pub all_applied : All IsApplied r.0.inputs
  pub kept : contents r.0.inputs ≡ contents s.inputs
  pub later : Str
  pub appended : r.1 ≡ out ++ later
  pub echoed : echoes s.turn r.0.inputs ≡ echoes s.turn s.inputs ++ later

pub pull_active :
    (h : Host) (ack : ℕ) (s : Steer)
    → steer_active h s ≡ true
    → is_empty s.key ≡ false
    → api_steer_pull h (some (next_pull ack s)) s ≡ acknowledge (next_pull ack s) s
unfolding api_steer_pull steer_active
pull_active h ack s active key = ground (arith, str_eq_self s.key)

pub none_left : (xs : List Input) → outstanding xs ≡ 0 → All IsApplied xs
unfolding outstanding
none_left [] e = tt
none_left (x ∷ xs) e = (weightless x.state (omega arith), none_left xs (omega arith))
  where
    weightless : (d : Delivery) → weight d ≡ 0 → d ≡ applied
    weightless applied e = refl
    weightless delivered e = absurd (omega arith)
    weightless pending e = absurd (omega arith)

acknowledge-confirm :
    (p : Pull) (s : Steer)
    → 0 < p.ack
    → acknowledge p s ≡ confirm p s (get_elem? s.inputs (p.ack - 1))
unfolding acknowledge
acknowledge-confirm p s h = ground arith

-- An acknowledgement of what was handed out last.
pub acknowledge-last :
    (s : Steer) (i : ℕ) (x : Input)
    → get_elem? s.inputs i ≡ some x
    → x.state ≡ delivered
    → acknowledge (next_pull (suc i) s) s
      ≡ pass_on (next_pull (suc i) s) (echo s.turn x) (with_input i (marked applied x) s)
unfolding confirm
acknowledge-last s i x at e =
    let p = next_pull (suc i) s in
    let index : i ≡ suc i - 1 = omega arith in
    let there = subst (λ n. get_elem? s.inputs n ≡ some x) index at in
    acknowledge-confirm p s (omega arith)
    ∙ ap (confirm p s) there
    ∙ ap (λ d. confirm_state d p x s) e
    ∙ ap (λ n. pass_on p (echo s.turn x) (with_input n (marked applied x) s)) (sym index)

pub IsReady-behind :
    (xs : List Input) (i : ℕ) (x : Input)
    → All IsReady xs
    → All IsReady (set xs i (marked applied x))
IsReady-behind [] i x h = tt
IsReady-behind (y ∷ ys) zero x h = (λ e. cc, h.1)
IsReady-behind (y ∷ ys) (suc i) x h = (h.0, IsReady-behind ys i x h.1)

pub first-IsReady :
    (xs : List Input) (i : ℕ) (x : Input) → All IsReady xs → IsFirst xs i x → x.state ≡ pending
first-IsReady [] i x h f = absurd f
first-IsReady (y ∷ ys) zero x h f = rw (← f.0) (waits y.state h.0 f.1)
  where
    waits : (d : Delivery) → d ≢ delivered → is_applied d ≡ false → d ≡ pending
    waits pending n e = refl
    waits delivered n e = absurd (n refl)
    waits applied n e = cc
first-IsReady (y ∷ ys) (suc i) x h f = first-IsReady ys i x h.1 f.1
