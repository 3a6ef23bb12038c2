-- ===== src/Steering/Drained/Served.antt =====
-- The rounds of a runtime that pulls until nothing is left, in src/dstudio_steering.c.
use dstudio.Base.{
  ℕ, zero, suc, ◌≤◌, ◌<◌, ◌≡◌, refl, sym, ap, ◌∙◌, subst, Bool, true, false, [], ◌++◌, append-nil,
  append_assoc, some, none, Str, is_empty, get_elem?-set, set-set, map-set, All, arith,
  Option-cases, inl, inr,
}
use dstudio.Steering.{
  outstanding, marked, with_input, first_waiting, hand_out, deliver, acknowledge, api_steer_pull,
  pass_on, echo, steer_active,
}
use dstudio.Steering.Types.{
  Delivery, pending, delivered, applied, Input, Steer, Host, Pull, delivery, drained,
}
use dstudio.Steering.Echoes.{echoes, mark_first-Continues}
use dstudio.Steering.Kept.{mark_first-IsQueue}
use dstudio.Steering.Queue.{
  IsFirst, IsQueue, first-get_elem?, first_waiting-IsFirst, first_waiting-none,
  outstanding-mark_first,
}
use dstudio.Steering.Drained.{
  IsDrained, IsReady, acknowledge-last, drain, go_on, next_pull, none_left, pull_active,
  first-IsReady, IsReady-behind,
}

deliver-none :
    (p : Pull) (s : Steer)
    → p.finish ≡ 1
    → deliver p s none ≡ (record s { is_open = false }, drained)
unfolding deliver
deliver-none p s e = rw e refl

deliver-first :
    (p : Pull) (s : Steer) (i : ℕ) (x : Input)
    → x.state ≡ pending
    → deliver p s (some (i, x)) ≡ (with_input i (marked delivered x) s, delivery (suc i) x.text)
unfolding deliver
deliver-first p s i x e = ap (λ d. hand_out d i x s) e

-- The last round closes the turn.
serve-none :
    (more : ℕ → Steer → Steer × Str × Bool) (p : Pull) (out : Str) (s : Steer)
    → p.finish ≡ 1
    → first_waiting 0 s.inputs ≡ none
    → IsDrained s out (go_on ((deliver p s none).0, out, (deliver p s none).1) more)
serve-none more p out s finish e =
    subst (λ d. IsDrained s out (go_on (d.0, out, d.1) more)) (sym (deliver-none p s finish))
      (record {
        ended = refl;
        closed = refl;
        all_applied = none_left s.inputs (first_waiting-none 0 s.inputs e);
        kept = refl;
        later = [];
        appended = refl;
        echoed = sym (append-nil (echoes s.turn s.inputs));
      })

echo-marked : (turn : ℕ) (d : Delivery) (x : Input) → echo turn (marked d x) ≡ echo turn x
unfolding echo
echo-marked turn d x = refl

-- The loop behind a delivery, by what is left once that is acknowledged.
IsDrained-behind :
    (s : Steer) (i : ℕ) (x : Input) (out : Str) (r : Steer × Str × Bool)
    → IsFirst s.inputs i x
    → IsQueue s
    → IsDrained (with_input i (marked applied x) s) (echo s.turn (marked delivered x)) r
    → IsDrained s out (r.0, out ++ r.1, r.2)
IsDrained-behind s i x out r f q d =
    let step = mark_first-Continues s i x applied f q in
    let at = first-get_elem? s.inputs i x f in
    record {
      ended = d.ended;
      closed = d.closed;
      all_applied = d.all_applied;
      kept =
          d.kept ∙ map-set (λ (y : Input). (y.id, y.text)) s.inputs i x (marked applied x) at refl;
      later = r.1;
      appended = refl;
      echoed =
          d.echoed
          ∙ ap (λ front. front ++ d.later) step.echoed
          ∙ append_assoc (echoes s.turn s.inputs) (echo s.turn x) d.later
          ∙ ap (λ asked. echoes s.turn s.inputs ++ asked)
              (ap (λ front. front ++ d.later) (sym (echo-marked s.turn delivered x))
                ∙ sym d.appended);
    }

pull-last :
    (h : Host) (s : Steer) (i : ℕ) (x : Input)
    → IsFirst s.inputs i x
    → steer_active h s ≡ true
    → is_empty s.key ≡ false
    → (let s' = with_input i (marked delivered x) s in
        api_steer_pull h (some (next_pull (suc i) s')) s'
        ≡ pass_on
            (next_pull (suc i) s')
            (echo s.turn (marked delivered x))
            (with_input i (marked applied x) s))
unfolding steer_active
pull-last h s i x f active key =
    let s' = with_input i (marked delivered x) s in
    let at = get_elem?-set s.inputs i x (marked delivered x) (first-get_elem? s.inputs i x f) in
    pull_active h (suc i) s' active key
    ∙ acknowledge-last s' i (marked delivered x) at refl
    ∙ ap
        (λ xs.
          pass_on (next_pull (suc i) s') (echo s.turn (marked delivered x))
            (record s { inputs = xs }))
        (set-set s.inputs i (marked delivered x) (marked applied x))

module _ (h : Host) where
  -- The rounds from a state in which nothing is handed out.
  serve :
      (fuel : ℕ) (p : Pull) (out : Str) (s : Steer)
      → p.finish ≡ 1
      → steer_active h s ≡ true
      → is_empty s.key ≡ false
      → All IsReady s.inputs
      → outstanding s.inputs ≤ fuel
      → IsQueue s
      → IsDrained s out (go_on (pass_on p out s) (λ i t. drain fuel h i t))
  unfolding drain steer_active
  serve zero p out s finish active key ready enough q =
      elim (Option-cases (first_waiting 0 s.inputs)) [
        | inl e ↦ rw e (serve-none (λ i t. drain zero h i t) p out s finish e)
        | inr ((j, x), e) ↦
            let (i, at, f) = first_waiting-IsFirst 0 s.inputs e in
            absurd (omega (arith, outstanding-mark_first s.inputs i x applied f))
      ]
  serve (suc fuel) p out s finish active key ready enough q =
      elim (Option-cases (first_waiting 0 s.inputs)) [
        | inl e ↦ rw e (serve-none (λ i t. drain (suc fuel) h i t) p out s finish e)
        | inr ((j, x), e) ↦
            let (i, at, f) = first_waiting-IsFirst 0 s.inputs e in
            let index : j ≡ i = omega arith in
            let s' = with_input i (marked delivered x) s in
            let s'' = with_input i (marked applied x) s in
            let asked = echo s.turn (marked delivered x) in
            let next = next_pull (suc i) s' in
            let fewer : outstanding s''.inputs ≤ fuel =
              omega (arith, outstanding-mark_first s.inputs i x applied f) in
            let rest =
              serve fuel next asked s'' refl active key (IsReady-behind s.inputs i x ready) fewer
                (mark_first-IsQueue s i x applied f q) in
            let behind = IsDrained-behind s i x out _ f q rest in
            let pulled =
              subst
                (λ o. IsDrained s out (
                  (go_on o (λ k t. drain fuel h k t)).0,
                  out ++ (go_on o (λ k t. drain fuel h k t)).1,
                  (go_on o (λ k t. drain fuel h k t)).2,
                ))
                (sym (pull-last h s i x f active key)) behind in
            let handed =
              subst (λ d. IsDrained s out (go_on (d.0, out, d.1) (λ k t. drain (suc fuel) h k t)))
                (sym (deliver-first p s i x (first-IsReady s.inputs i x ready f))) pulled in
            rw (e, index) handed
      ]

-- A runtime that pulls, acknowledges each time what it was handed, and asks to finish, comes to an
-- end while the turn is active, if nothing was handed out before: it pulls once more than there are
-- inputs that are not applied, hence at most 17 times. Then the turn is closed and every input is
-- applied, none is lost, and the transcript has got the echo of each that was not applied before,
-- in order.
pub drain-IsDrained :
    (h : Host) (s : Steer) (fuel : ℕ)
    → steer_active h s ≡ true
    → is_empty s.key ≡ false
    → All IsReady s.inputs
    → IsQueue s
    → outstanding s.inputs < fuel
    → IsDrained s [] (drain fuel h 0 s)
unfolding drain
drain-IsDrained h s zero active key ready q enough = elim enough [ ]
drain-IsDrained h s (suc fuel) active key ready q enough =
    rw (pull_active h 0 s active key, acknowledge_none (next_pull 0 s) s refl)
      (serve h fuel (next_pull 0 s) [] s refl active key ready (omega arith) q)
  where
    acknowledge_none : (p : Pull) (t : Steer) → p.ack ≡ 0 → acknowledge p t ≡ pass_on p [] t
    acknowledge_none p t e = unfold acknowledge in rw e refl
