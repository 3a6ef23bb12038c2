-- ===== src/Steering/Kept/Pulls.antt =====
-- A pull, and the start of an engine, keep the invariant of the queue in src/dstudio_steering.c.
use dstudio.Base.{
  ℕ, ◌-◌, ◌≡◌, refl, subst, Bool, true, false, not, ◌||◌, List, [], Option, some, none, Str, ◌==◌,
  get_elem?, arith, if-intro,
}
use dstudio.Steering.{
  outstanding, first_waiting, hand_out, deliver, confirm, open_turn, api_steer_pull, confirm_state,
  pass_on, steer_prepare, echo,
}
use dstudio.Steering.Types.{Delivery, pending, delivered, applied, Input, Steer, Host, Pull, Reply}
use dstudio.Steering.Cases.{acknowledge-intro, pull-intro}
use dstudio.Steering.Queue.{IsFirst, IsQueue, delivered-IsFirst, first_waiting-IsFirst}
use dstudio.Steering.Kept.{mark_first-IsQueue}

abbrev PullKeepsQueue : Steer × Str × Reply → Type 0
PullKeepsQueue o = IsQueue o.0

hand_out-IsQueue :
    (d : Delivery) (i : ℕ) (x : Input) (s : Steer)
    → IsFirst s.inputs i x
    → IsQueue s
    → IsQueue (hand_out d i x s).0
hand_out-IsQueue delivered i x s f q = q
hand_out-IsQueue pending i x s f q = mark_first-IsQueue s i x delivered f q
hand_out-IsQueue applied i x s f q = mark_first-IsQueue s i x delivered f q

close-IsQueue : (s : Steer) → IsQueue s → IsQueue (record s { is_open = false })
close-IsQueue s q = record {
  ordered = q.ordered;
  unique = q.unique;
  sound = q.sound;
  room = q.room;
  few = q.few;
}

deliver-IsQueue :
    (p : Pull) (s : Steer) (o : Option (ℕ × Input))
    → first_waiting 0 s.inputs ≡ o
    → IsQueue s
    → IsQueue (deliver p s o).0
unfolding deliver
deliver-IsQueue p s none e q =
    if-intro IsQueue (p.finish == 0) _ _ (λ _. q) (λ _. close-IsQueue s q)
deliver-IsQueue p s (some (j, x)) e q =
    let (i, at, f) = first_waiting-IsFirst 0 s.inputs e in
    hand_out-IsQueue x.state j x s (subst (λ k. IsFirst s.inputs k x) (omega arith) f) q

pass_on-IsQueue :
    (p : Pull) (appended : Str) (s : Steer) → IsQueue s → IsQueue (pass_on p appended s).0
pass_on-IsQueue p appended s q = deliver-IsQueue p s (first_waiting 0 s.inputs) refl q

confirm_state-IsQueue :
    (d : Delivery) (p : Pull) (x : Input) (s : Steer)
    → get_elem? s.inputs (p.ack - 1) ≡ some x
    → x.state ≡ d
    → IsQueue s
    → IsQueue (confirm_state d p x s).0
confirm_state-IsQueue pending p x s at e q = q
confirm_state-IsQueue applied p x s at e q = pass_on-IsQueue p [] s q
confirm_state-IsQueue delivered p x s at e q = pass_on-IsQueue p (echo s.turn x) _ (
    mark_first-IsQueue s (p.ack - 1) x applied
      (delivered-IsFirst s.inputs (p.ack - 1) x q.ordered at e) q)

confirm-IsQueue :
    (p : Pull) (s : Steer) (o : Option Input)
    → get_elem? s.inputs (p.ack - 1) ≡ o
    → IsQueue s
    → IsQueue (confirm p s o).0
unfolding confirm
confirm-IsQueue p s none e q = q
confirm-IsQueue p s (some x) e q = confirm_state-IsQueue x.state p x s e refl q

pub empty-IsQueue :
    (key : Str) (turn : ℕ) (o : Bool)
    → IsQueue (record { key = key; turn = turn; is_open = o; inputs = [] })
unfolding outstanding
empty-IsQueue key turn o = record {
  ordered = tt;
  unique = tt;
  sound = tt;
  room = omega arith;
  few = omega arith;
}

open_turn-IsQueue : (h : Host) (s : Steer) → IsQueue s → IsQueue (open_turn h s).0
unfolding open_turn
open_turn-IsQueue h s q =
    if-intro PullKeepsQueue (h.active_turn_task == 0 || h.interrupt_pending || not h.is_piped) _ _
      (λ _. q)
      (λ _.
        if-intro PullKeepsQueue (s.turn == h.active_turn_task) _ _ (λ _. q)
          (λ _. empty-IsQueue s.key h.active_turn_task true))

pub api_steer_pull-IsQueue :
    (h : Host) (p : Option Pull) (s : Steer) → IsQueue s → IsQueue (api_steer_pull h p s).0
api_steer_pull-IsQueue h none s q = unfold api_steer_pull in q
api_steer_pull-IsQueue h (some p) s q =
    pull-intro PullKeepsQueue h p s (λ _. q) (open_turn-IsQueue h s q)
      (λ _ _.
        acknowledge-intro PullKeepsQueue p s (λ _. pass_on-IsQueue p [] s q)
          (confirm-IsQueue p s (get_elem? s.inputs (p.ack - 1)) refl q))

pub steer_prepare-IsQueue : (bytes : Option (List ℕ)) → IsQueue (steer_prepare bytes)
unfolding steer_prepare
steer_prepare-IsQueue none = empty-IsQueue _ 0 false
steer_prepare-IsQueue (some bytes) = empty-IsQueue _ 0 false
