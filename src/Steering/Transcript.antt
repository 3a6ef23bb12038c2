-- ===== src/Steering/Transcript.antt =====
-- Each call of src/dstudio_steering.c while a turn is active, and what the transcript gets.
use dstudio.Base.{
  ℕ, ◌-◌, ◌≡◌, refl, sym, ◌∙◌, subst, true, false, not, ◌||◌, List, [], ◌∷◌, ◌++◌, append-nil,
  Option, some, none, Str, str_eq, ◌==◌, leb, length, get_elem?, All, arith, if-intro,
}
use dstudio.Steering.{
  find_input, outstanding, max_outstanding, max_inputs, new_input, retain, api_steer, marked,
  with_input, first_waiting, hand_out, deliver, confirm, open_turn, api_steer_pull, confirm_state,
  echo,
}
use dstudio.Steering.Types.{
  Delivery, pending, delivered, applied, Input, Steer, Host, Request, Pull, Reply,
}
use dstudio.Steering.Cases.{acknowledge-intro, api_steer-intro, pull-intro}
use dstudio.Steering.Kept.{mark_first-IsQueue}
use dstudio.Steering.Queue.{IsFirst, IsQueue, delivered-IsFirst, first_waiting-IsFirst}
use dstudio.Steering.Echoes.{
  Continues, Continues-refl, Continues-trans, contents, contents-append, echoes, echoes-append,
  mark_first-Continues,
}
use dstudio.Steering.Histories.{
  Event, prepare, submit, fetch, take_event, history, take_event-IsQueue,
}

-- `turn` is the active turn at a call, and no engine is started.
abbrev pub During : ℕ → Event → Type 0
During turn (prepare bytes) = ⊥
During turn (submit h r) = Unit
During turn (fetch h p) = h.active_turn_task ≡ turn

abbrev Submitted : Steer → Steer × Reply → Type 0
Submitted s o = Continues s o.0 []

abbrev Fetched : Steer → Steer × Str × Reply → Type 0
Fetched s o = Continues s o.0 o.1

accept-Continues :
    (r : Request) (s : Steer) → Continues s (record s { inputs = s.inputs ++ new_input r ∷ [] }) []
accept-Continues r s = record {
  same_turn = refl;
  more = ((new_input r).id, r.text) ∷ [];
  grown = contents-append s.inputs (new_input r);
  echoed =
      echoes-append s.turn s.inputs (new_input r) refl ∙ sym (append-nil (echoes s.turn s.inputs));
}

retain-Continues :
    (h : Host) (r : Request) (s : Steer) (found : Option Input)
    → Continues s (retain h r s found).0 []
unfolding retain
retain-Continues h r s (some known) =
    if-intro (Submitted s) (str_eq known.text r.text) _ _ (λ _. Continues-refl s)
      (λ _. Continues-refl s)
retain-Continues h r s none =
    if-intro (Submitted s) (not s.is_open) _ _ (λ _. Continues-refl s)
      (λ _.
        if-intro (Submitted s)
          (leb max_outstanding (outstanding s.inputs) || length s.inputs == max_inputs) _ _
          (λ _. Continues-refl s) (λ _. accept-Continues r s))

hand_out-Continues :
    (d : Delivery) (i : ℕ) (x : Input) (s : Steer)
    → IsFirst s.inputs i x
    → IsQueue s
    → Continues s (hand_out d i x s).0 []
hand_out-Continues delivered i x s f q = Continues-refl s
hand_out-Continues pending i x s f q = mark_first-Continues s i x delivered f q
hand_out-Continues applied i x s f q = mark_first-Continues s i x delivered f q

close-Continues : (s : Steer) → Continues s (record s { is_open = false }) []
close-Continues s = record {
  same_turn = refl;
  more = [];
  grown = sym (append-nil (contents s.inputs));
  echoed = sym (append-nil (echoes s.turn s.inputs));
}

deliver-Continues :
    (p : Pull) (s : Steer) (o : Option (ℕ × Input))
    → first_waiting 0 s.inputs ≡ o
    → IsQueue s
    → Continues s (deliver p s o).0 []
unfolding deliver
deliver-Continues p s none e q =
    if-intro (λ t. Continues s t []) (p.finish == 0) _ _ (λ _. Continues-refl s)
      (λ _. close-Continues s)
deliver-Continues p s (some (j, x)) e q =
    let (i, at, f) = first_waiting-IsFirst 0 s.inputs e in
    hand_out-Continues x.state j x s (subst (λ k. IsFirst s.inputs k x) (omega arith) f) q

pass_on-Continues :
    (p : Pull) (s : Steer) → IsQueue s → Continues s (deliver p s (first_waiting 0 s.inputs)).0 []
pass_on-Continues p s q = deliver-Continues p s (first_waiting 0 s.inputs) refl q

confirm_state-Continues :
    (d : Delivery) (p : Pull) (x : Input) (s : Steer)
    → get_elem? s.inputs (p.ack - 1) ≡ some x
    → x.state ≡ d
    → IsQueue s
    → Fetched s (confirm_state d p x s)
confirm_state-Continues pending p x s at e q = Continues-refl s
confirm_state-Continues applied p x s at e q = pass_on-Continues p s q
confirm_state-Continues delivered p x s at e q =
    let first = delivered-IsFirst s.inputs (p.ack - 1) x q.ordered at e in
    let s' = with_input (p.ack - 1) (marked applied x) s in
    subst (λ out. Continues s (deliver p s' (first_waiting 0 s'.inputs)).0 out)
      (append-nil (echo s.turn x))
      (Continues-trans (mark_first-Continues s (p.ack - 1) x applied first q)
        (pass_on-Continues p s' (mark_first-IsQueue s (p.ack - 1) x applied first q)))

confirm-Continues :
    (p : Pull) (s : Steer) (o : Option Input)
    → get_elem? s.inputs (p.ack - 1) ≡ o
    → IsQueue s
    → Fetched s (confirm p s o)
unfolding confirm
confirm-Continues p s none e q = Continues-refl s
confirm-Continues p s (some x) e q = confirm_state-Continues x.state p x s e refl q

open_turn-Continues :
    (h : Host) (s : Steer) → h.active_turn_task ≡ s.turn → Fetched s (open_turn h s)
unfolding open_turn
open_turn-Continues h s same =
    if-intro (Fetched s) (h.active_turn_task == 0 || h.interrupt_pending || not h.is_piped) _ _
      (λ _. Continues-refl s)
      (λ _.
        if-intro (Fetched s) (s.turn == h.active_turn_task) _ _ (λ _. Continues-refl s)
          (λ other. cc (==_refl s.turn h.active_turn_task (sym same))))
  where
    ==_refl : (a b : ℕ) → a ≡ b → (a == b) ≡ true
    ==_refl a b e = ground arith

take_event-Continues :
    (e : Event) (s : Steer)
    → During s.turn e
    → IsQueue s
    → Continues s (take_event e s).0 (take_event e s).1
unfolding take_event
take_event-Continues (prepare bytes) s d q = absurd d
take_event-Continues (submit h none) s d q = unfold api_steer in Continues-refl s
take_event-Continues (submit h (some r)) s d q =
    api_steer-intro (Submitted s) h r s (λ _. Continues-refl s)
      (λ _ _. retain-Continues h r s (find_input r.input_id s.inputs))
take_event-Continues (fetch h none) s d q = unfold api_steer_pull in Continues-refl s
take_event-Continues (fetch h (some p)) s d q =
    pull-intro (Fetched s) h p s (λ _. Continues-refl s) (open_turn-Continues h s d)
      (λ _ _.
        acknowledge-intro (Fetched s) p s (λ _. pass_on-Continues p s q)
          (confirm-Continues p s (get_elem? s.inputs (p.ack - 1)) refl q))

-- While a turn is active, submissions and pulls in any order only add inputs to those of the turn,
-- and what they append to the transcript is the echo of each input that they bring to be applied:
-- once, and in the order of acceptance.
pub history-Continues :
    (events : List Event) (s : Steer)
    → All (During s.turn) events
    → IsQueue s
    → Continues s (history events s).0 (history events s).1
unfolding history
history-Continues [] s d q = Continues-refl s
history-Continues (e ∷ events) s d q =
    let first = take_event-Continues e s d.0 q in
    Continues-trans first (
      history-Continues events (take_event e s).0
        (subst (λ turn. All (During turn) events) (sym first.same_turn) d.1)
        (take_event-IsQueue e s q))
