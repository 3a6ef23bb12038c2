-- ===== src/Steering/Refused.antt =====
-- What a call of src/dstudio_steering.c that is refused leaves behind.
use dstudio.Base.{
  ℕ, zero, suc, ◌-◌, ◌≡◌, refl, not, ◌||◌, List, [], ◌∷◌, Option, some, none, Str, str_eq, ◌==◌,
  leb, length, get_elem?, set, All, arith, if-intro,
}
use dstudio.Steering.{
  find_input, outstanding, max_outstanding, max_inputs, retain, api_steer, api_steer_status, marked,
  with_input, first_waiting, hand_out, deliver, confirm, open_turn, api_steer_pull, confirm_state,
}
use dstudio.Steering.Types.{
  Delivery, pending, delivered, applied, Input, Steer, Host, Request, Pull, Refusal, Reply, refused,
}
use dstudio.Steering.Cases.{acknowledge-intro, api_steer-intro, pull-intro}
use dstudio.Steering.Histories.{Event, prepare, submit, fetch, take_event}
use dstudio.Steering.Queue.{
  IsFirst, IsOrdered, IsPending, IsQueue, Behind-applied, Behind-waiting, delivered-IsFirst,
}

-- In an ordered queue the input behind one that has just been applied was not handed out.
first_of_IsPending :
    (k : ℕ) (xs : List Input) {j : ℕ} {y : Input}
    → All IsPending xs
    → first_waiting k xs ≡ some (j, y)
    → IsPending y
unfolding first_waiting
first_of_IsPending k [] h e = cc
first_of_IsPending k (x ∷ xs) h e = let waits = h.0 in ground arith

pub first_behind :
    (k : ℕ) (xs : List Input) (i : ℕ) (x : Input) {j : ℕ} {y : Input}
    → IsFirst xs i x
    → IsOrdered xs
    → first_waiting k (set xs i (marked applied x)) ≡ some (j, y)
    → IsPending y
unfolding first_waiting
first_behind k [] i x f h e = absurd f
first_behind k (z ∷ zs) zero x f h e =
    first_of_IsPending (suc k) zs (Behind-waiting z.state _ _ f.1 h) e
first_behind k (z ∷ zs) (suc i) x f h e =
    first_behind (suc k) zs i x f.1 (Behind-applied z.state _ _ f.0 h) (rw f.0 at e)

module _ (why : Refusal) (s : Steer) where
  abbrev StaysSubmitted : Steer × Reply → Type 0
  StaysSubmitted o = o.1 ≡ refused why → o.0 ≡ s

  abbrev StaysFetched : Steer × Str × Reply → Type 0
  StaysFetched o = o.2 ≡ refused why → (o.0 ≡ s) × (o.1 ≡ [])

  retain-refused : (h : Host) (r : Request) (o : Option Input) → StaysSubmitted (retain h r s o)
  unfolding retain api_steer_status
  retain-refused h r (some known) =
      if-intro StaysSubmitted (str_eq known.text r.text) _ _ (λ _ e. cc) (λ _ _. refl)
  retain-refused h r none =
      if-intro StaysSubmitted (not s.is_open) _ _ (λ _ _. refl)
        (λ _.
          if-intro StaysSubmitted
            (leb max_outstanding (outstanding s.inputs) || length s.inputs == max_inputs) _ _
            (λ _ _. refl) (λ _ e. cc))

  hand_out-refused :
      (d : Delivery) (i : ℕ) (x : Input)
      → (hand_out d i x s).1 ≡ refused why
      → (hand_out d i x s).0 ≡ s
  hand_out-refused delivered i x e = refl
  hand_out-refused pending i x e = cc
  hand_out-refused applied i x e = cc

  deliver-refused :
      (p : Pull) (o : Option (ℕ × Input)) → (deliver p s o).1 ≡ refused why → (deliver p s o).0 ≡ s
  unfolding deliver
  deliver-refused p none e = cc
  deliver-refused p (some (j, x)) e = hand_out-refused x.state j x e

  -- Nothing is refused behind an acknowledgement that counts.
  accepted :
      (p : Pull) (t : Steer) (o : Option (ℕ × Input))
      → ((j : ℕ) (y : Input) → o ≡ some (j, y) → IsPending y)
      → (deliver p t o).1 ≡ refused why
      → ⊥
  unfolding deliver
  accepted p t none waits e = cc
  accepted p t (some (j, y)) waits e = handed y.state (waits j y refl) e
    where
      handed : (d : Delivery) → d ≡ pending → (hand_out d j y t).1 ≡ refused why → ⊥
      handed delivered n e = cc
      handed pending n e = cc
      handed applied n e = cc

  confirm_state-refused :
      (d : Delivery) (p : Pull) (x : Input)
      → get_elem? s.inputs (p.ack - 1) ≡ some x
      → x.state ≡ d
      → IsQueue s
      → StaysFetched (confirm_state d p x s)
  confirm_state-refused pending p x at e q no' = (refl, refl)
  confirm_state-refused applied p x at e q no' = (deliver-refused p _ no', refl)
  confirm_state-refused delivered p x at e q no' =
      let first = delivered-IsFirst s.inputs (p.ack - 1) x q.ordered at e in
      absurd (
        accepted p (with_input (p.ack - 1) (marked applied x) s) _
          (λ j y found. first_behind 0 s.inputs (p.ack - 1) x first q.ordered found) no')

  confirm-refused :
      (p : Pull) (o : Option Input)
      → get_elem? s.inputs (p.ack - 1) ≡ o
      → IsQueue s
      → StaysFetched (confirm p s o)
  unfolding confirm
  confirm-refused p none at q no' = (refl, refl)
  confirm-refused p (some x) at q no' = confirm_state-refused x.state p x at refl q no'

  open_turn-refused : (h : Host) → StaysFetched (open_turn h s)
  unfolding open_turn
  open_turn-refused h =
      if-intro StaysFetched (h.active_turn_task == 0 || h.interrupt_pending || not h.is_piped) _ _
        (λ _ _. (refl, refl))
        (λ _.
          if-intro StaysFetched (s.turn == h.active_turn_task) _ _ (λ _ _. (refl, refl))
            (λ _ e. cc))

-- A call that is refused, for whatever reason, changes no input, does not close or open a turn, and
-- appends nothing to the transcript.
pub take_event-refused :
    (e : Event) (s : Steer) (why : Refusal)
    → IsQueue s
    → (take_event e s).2 ≡ some (refused why)
    → ((take_event e s).0 ≡ s) × ((take_event e s).1 ≡ [])
unfolding take_event
take_event-refused (prepare bytes) s why q no' = cc
take_event-refused (submit h none) s why q no' = (unfold api_steer in refl, refl)
take_event-refused (submit h (some r)) s why q no' = (
  api_steer-intro (StaysSubmitted why s) h r s (λ _ _. refl)
      (λ _ _. retain-refused why s h r (find_input r.input_id s.inputs)) (cc),
  refl,
)
take_event-refused (fetch h none) s why q no' = unfold api_steer_pull in (refl, refl)
take_event-refused (fetch h (some p)) s why q no' =
    pull-intro (StaysFetched why s) h p s (λ _ _. (refl, refl)) (open_turn-refused why s h)
      (λ _ _.
        acknowledge-intro (StaysFetched why s) p s (λ _ e. (deliver-refused why s p _ e, refl))
          (confirm-refused why s p (get_elem? s.inputs (p.ack - 1)) refl q))
      (cc)
