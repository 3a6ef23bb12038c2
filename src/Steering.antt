-- ===== src/Steering.antt =====
-- Steering of a running turn: src/dstudio_steering.c. `Steer` is `g_steer`, where the list of inputs
-- stands for the array with its `count`; `Host` is what the globals of src/dstudio.c say during a
-- call. A request is what the JSON body or `sscanf` yields, and `none` where that fails. A pull
-- returns the state, the bytes that it appends to the transcript, and the reply.
pub mod Types
pub mod Cases
pub mod Queue
pub mod Kept
pub mod Histories
pub mod Echoes
pub mod Transcript
pub mod Refused
pub mod Drained
use dstudio.Base.{
  hex_digit, cstr_copy, ℕ, zero, suc, ◌+◌, ◌-◌, ◌/◌, ◌%◌, Bool, true, false, not, ◌&&◌, ◌||◌, List,
  [], ◌∷◌, ◌++◌, Option, some, none, Str, codes, str_eq, is_empty, if◌then◌else◌, ◌==◌, ltb, leb,
  length, get_elem?, set, map,
}
use dstudio.Graph.Paths.{id_valid}
use dstudio.Steering.Types.{
  Delivery, pending, delivered, applied, Input, Steer, Host, Request, Pull, Shown, shown_applied,
  shown_unconfirmed, shown_delivered, shown_pending, Refusal, invalid_request, turn_inactive,
  id_conflict, turn_closed, limit_reached, invalid_credential, inactive, stale,
  invalid_acknowledgement, delivery_unconfirmed, Reply, refused, status, opened, delivery, drained,
}

-- `%02x` for each
abbrev pub hex_bytes : List ℕ → Str
hex_bytes [] = []
hex_bytes (b ∷ bs) = hex_digit (b / 16) ∷ hex_digit (b % 16) ∷ hex_bytes bs

-- `none` where the 32 random bytes cannot be read.
unfoldable pub steer_prepare : Option (List ℕ) → Steer
steer_prepare none = record { key = []; turn = 0; is_open = false; inputs = [] }
steer_prepare (some bytes) = record {
  key = hex_bytes bytes;
  turn = 0;
  is_open = false;
  inputs = [];
}

unfoldable pub steer_active : Host → Steer → Bool
steer_active h s =
    not (s.turn == 0)
    && s.turn == h.active_turn_task
    && h.is_piped
    && h.has_child
    && h.agent_working
    && not h.interrupt_pending

-- `%llu`; a number below 2 ^ 64 has at most 20 digits.
unfoldable pub decimal_digits : ℕ → ℕ → Str → Str
decimal_digits zero n digits = digits
decimal_digits (suc fuel) n digits =
    let longer = (b'0' + n % 10) ∷ digits in
    let rest = decimal_digits fuel (n / 10) longer in if ltb n 10 then longer else rest

unfoldable pub decimal : ℕ → Str
unfolding decimal_digits
decimal n = decimal_digits 20 n []

abbrev pub shown_state : Bool → Delivery → Shown
shown_state active applied = shown_applied
shown_state true delivered = shown_delivered
shown_state true pending = shown_pending
shown_state false delivered = shown_unconfirmed
shown_state false pending = shown_unconfirmed

unfoldable pub api_steer_status : Host → Steer → Reply
api_steer_status h s =
    let active = steer_active h s in
    status s.turn (active && s.is_open) (map (λ x. (x.id, shown_state active x.state)) s.inputs)

unfoldable pub find_input : Str → List Input → Option Input
find_input id [] = none
find_input id (x ∷ xs) = if str_eq x.id id then some x else find_input id xs

abbrev pub weight : Delivery → ℕ
weight applied = 0
weight delivered = 1
weight pending = 1

-- How many inputs are not applied.
unfoldable pub outstanding : List Input → ℕ
outstanding [] = 0
outstanding (x ∷ xs) = weight x.state + outstanding xs

abbrev pub max_outstanding : ℕ
max_outstanding = 16

abbrev pub max_inputs : ℕ
max_inputs = 128

abbrev pub new_input : Request → Input
new_input r = record { id = cstr_copy 64 r.input_id; text = r.text; state = pending }

unfoldable pub retain : Host → Request → Steer → Option Input → Steer × Reply
retain h r s (some known) =
    if str_eq known.text r.text then (s, api_steer_status h s) else (s, refused id_conflict)
retain h r s none =
    if not s.is_open
    then (s, refused turn_closed)
    else if leb max_outstanding (outstanding s.inputs) || length s.inputs == max_inputs
    then (s, refused limit_reached)
    else let s' = record s { inputs = s.inputs ++ new_input r ∷ [] } in (s', api_steer_status h s')

unfoldable pub api_steer : Host → Option Request → Steer → Steer × Reply
api_steer h none s = (s, refused invalid_request)
api_steer h (some r) s =
    if not (id_valid r.input_id) || is_empty r.text
    then (s, refused invalid_request)
    else if not (str_eq (decimal s.turn) r.expected_turn) || not (steer_active h s)
    then (s, refused turn_inactive)
    else retain h r s (find_input r.input_id s.inputs)

-- The line in the transcript that tells of an applied input.
unfoldable pub receipt : ℕ → Str → Str
receipt turn id =
    0x1e ∷ codes "{\"type\":\"steering_applied\",\"turnId\":\""
    ++ (decimal turn ++ (codes "\",\"inputId\":\"" ++ (id ++ codes "\"}\n")))

-- What an acknowledgement appends to the transcript.
unfoldable pub echo : ℕ → Input → Str
echo turn x =
    (0x01 ∷ codes "USER" ++ 0x02 ∷ [])
    ++ (x.text ++ ((0x01 ∷ codes "ENDUSER" ++ 0x02 ∷ b'\n' ∷ []) ++ receipt turn x.id))

abbrev pub marked : Delivery → Input → Input
marked state x = record x { state = state }

abbrev pub with_input : ℕ → Input → Steer → Steer
with_input i x s = record s { inputs = set s.inputs i x }

abbrev pub is_applied : Delivery → Bool
is_applied applied = true
is_applied delivered = false
is_applied pending = false

-- The first input that is not applied, with its index.
unfoldable pub first_waiting : ℕ → List Input → Option (ℕ × Input)
first_waiting i [] = none
first_waiting i (x ∷ xs) = if is_applied x.state then first_waiting (suc i) xs else some (i, x)

abbrev pub hand_out : Delivery → ℕ → Input → Steer → Steer × Reply
hand_out delivered i x s = (s, refused delivery_unconfirmed)
hand_out pending i x s = (with_input i (marked delivered x) s, delivery (suc i) x.text)
hand_out applied i x s = (with_input i (marked delivered x) s, delivery (suc i) x.text)

unfoldable pub deliver : Pull → Steer → Option (ℕ × Input) → Steer × Reply
deliver p s none = (if p.finish == 0 then s else record s { is_open = false }, drained)
deliver p s (some (i, x)) = hand_out x.state i x s

-- The bytes that were appended, before the state and reply of `deliver`.
abbrev pub pass_on : Pull → Str → Steer → Steer × Str × Reply
pass_on p appended s =
    let (s', reply) = deliver p s (first_waiting 0 s.inputs) in (s', appended, reply)

abbrev pub confirm_state : Delivery → Pull → Input → Steer → Steer × Str × Reply
confirm_state pending p x s = (s, [], refused invalid_acknowledgement)
confirm_state applied p x s = pass_on p [] s
confirm_state delivered p x s =
    pass_on p (echo s.turn x) (with_input (p.ack - 1) (marked applied x) s)

unfoldable pub confirm : Pull → Steer → Option Input → Steer × Str × Reply
confirm p s none = (s, [], refused invalid_acknowledgement)
confirm p s (some x) = confirm_state x.state p x s

unfoldable pub acknowledge : Pull → Steer → Steer × Str × Reply
acknowledge p s =
    if p.ack == 0 then pass_on p [] s else confirm p s (get_elem? s.inputs (p.ack - 1))

unfoldable pub open_turn : Host → Steer → Steer × Str × Reply
open_turn h s =
    if h.active_turn_task == 0 || h.interrupt_pending || not h.is_piped
    then (s, [], refused inactive)
    else if s.turn == h.active_turn_task
    then (s, [], opened s.turn)
    else (
      record s { inputs = []; turn = h.active_turn_task; is_open = true },
      [],
      opened h.active_turn_task,
    )

unfoldable pub api_steer_pull : Host → Option Pull → Steer → Steer × Str × Reply
api_steer_pull h none s = (s, [], refused invalid_credential)
api_steer_pull h (some p) s =
    if is_empty s.key || not (str_eq p.key s.key) || not (p.finish == 0 || p.finish == 1)
    then (s, [], refused invalid_credential)
    else if p.turn == 0
    then open_turn h s
    else if not (p.turn == s.turn) || not (steer_active h s)
    then (s, [], refused stale)
    else acknowledge p s
