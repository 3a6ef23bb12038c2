-- ===== src/Steering/Cases.antt =====
-- The branches of the two handlers in src/dstudio_steering.c, for a predicate on what they return.
use dstudio.Base.{
  ◌≡◌, true, false, not, ◌||◌, [], some, Str, str_eq, is_empty, ◌==◌, ◌-◌, get_elem?, arith,
  if-intro,
}
use dstudio.Graph.Paths.{id_valid}
use dstudio.Steering.{
  find_input, retain, api_steer, decimal, steer_active, acknowledge, confirm, open_turn, pass_on,
  api_steer_pull,
}
use dstudio.Steering.Types.{
  Steer, Host, Request, Pull, Refusal, Reply, refused, invalid_request, turn_inactive,
  invalid_credential, stale,
}

pub api_steer-intro {ℓ} :
    (P : Steer × Reply → Type ℓ) (h : Host) (r : Request) (s : Steer)
    → ((e : Refusal) → P (s, refused e))
    → (id_valid r.input_id ≡ true
        → is_empty r.text ≡ false
        → P (retain h r s (find_input r.input_id s.inputs)))
    → P (api_steer h (some r) s)
unfolding api_steer
api_steer-intro P h r s refuse go =
    let inactive = not (str_eq (decimal s.turn) r.expected_turn) || not (steer_active h s) in
    if-intro P (not (id_valid r.input_id) || is_empty r.text) (s, refused invalid_request) _
      (λ _. refuse invalid_request)
      (λ good.
        if-intro P inactive (s, refused turn_inactive)
          (retain h r s (find_input r.input_id s.inputs)) (λ _. refuse turn_inactive)
          (λ _. go (ground arith) (ground arith)))

pub pull-intro {ℓ} :
    (P : Steer × Str × Reply → Type ℓ) (h : Host) (p : Pull) (s : Steer)
    → ((e : Refusal) → P (s, [], refused e))
    → P (open_turn h s)
    → (p.turn ≡ s.turn → steer_active h s ≡ true → P (acknowledge p s))
    → P (api_steer_pull h (some p) s)
unfolding api_steer_pull
pull-intro P h p s refuse fresh go =
    let bad_key =
      is_empty s.key || not (str_eq p.key s.key) || not (p.finish == 0 || p.finish == 1) in
    let old = not (p.turn == s.turn) || not (steer_active h s) in
    if-intro P bad_key (s, [], refused invalid_credential) _ (λ _. refuse invalid_credential)
      (λ _.
        if-intro P (p.turn == 0) (open_turn h s) _ (λ _. fresh)
          (λ _.
            if-intro P old (s, [], refused stale) (acknowledge p s) (λ _. refuse stale)
              (λ current. go (ground arith) (ground arith))))

pub acknowledge-intro {ℓ} :
    (P : Steer × Str × Reply → Type ℓ) (p : Pull) (s : Steer)
    → (p.ack ≡ 0 → P (pass_on p [] s))
    → P (confirm p s (get_elem? s.inputs (p.ack - 1)))
    → P (acknowledge p s)
unfolding acknowledge
acknowledge-intro P p s idle go =
    if-intro P (p.ack == 0) (pass_on p [] s) (confirm p s (get_elem? s.inputs (p.ack - 1)))
      (λ e. idle (ground arith)) (λ _. go)
