-- ===== src/Examples/Inputs.antt =====
-- The theorems about the steering of a turn at concrete inputs.
use dstudio.Base.{◌<◌, ◌≡◌, has_prefix, refl, true, false, List, [], ◌∷◌, some, none, codes, arith}
use dstudio.Graph.Paths.{has_dot_dot, id_valid}
use dstudio.Steering.{api_steer, outstanding, steer_active, steer_prepare}
use dstudio.Steering.Types.{Input, Steer, Host, Request, Pull, pending, refused, invalid_request}
use dstudio.Steering.Drained.{IsDrained, drain}
use dstudio.Steering.Drained.Served.{drain-IsDrained}
use dstudio.Steering.Echoes.{Continues}
use dstudio.Steering.Histories.{Event, fetch, history, history-IsQueue, submit, take_event}
use dstudio.Steering.Kept.Pulls.{empty-IsQueue}
use dstudio.Steering.Queue.{IsQueue}
use dstudio.Steering.Refused.{take_event-refused}
use dstudio.Steering.Transcript.{history-Continues}

abbrev host : Host
host = record {
  active_turn_task = 7;
  is_piped = true;
  has_child = true;
  agent_working = true;
  interrupt_pending = false;
}

abbrev request : Request
request = record {
  expected_turn = codes "7";
  input_id = codes "note";
  text = codes "also run the tests";
}

abbrev pull : Pull
pull = record { key = codes "0a0b"; turn = 7; ack = 0; finish = 0 }

abbrev receipt_pull : Pull
receipt_pull = record { key = codes "0a0b"; turn = 7; ack = 1; finish = 1 }

abbrev events : List Event
events = submit host (some request) ∷ fetch host (some pull) ∷ fetch host (some receipt_pull) ∷ []

history-IsQueue_example :
    IsQueue
      (history
        (fetch host (some (record pull { turn = 0 })) ∷ events)
        (steer_prepare (some (0x0a ∷ 0x0b ∷ [])))).0
history-IsQueue_example =
    history-IsQueue (some (0x0a ∷ 0x0b ∷ []))
      (fetch host (some (record pull { turn = 0 })) ∷ events)

abbrev fresh : Steer
fresh = record { key = codes "0a0b"; turn = 7; is_open = true; inputs = [] }

fresh-IsQueue : IsQueue fresh
fresh-IsQueue = empty-IsQueue (codes "0a0b") 7 true

history-Continues_example : Continues fresh (history events fresh).0 (history events fresh).1
history-Continues_example = history-Continues events fresh (tt, (refl, (refl, tt))) fresh-IsQueue

take_event_bad : (take_event (submit host none) fresh).2 ≡ some (refused invalid_request)
unfolding take_event api_steer
take_event_bad = refl

take_event-refused_example :
    ((take_event (submit host none) fresh).0 ≡ fresh)
    × ((take_event (submit host none) fresh).1 ≡ [])
take_event-refused_example =
    take_event-refused (submit host none) fresh invalid_request fresh-IsQueue take_event_bad

abbrev note : Input
note = record { id = codes "note"; text = codes "also run the tests"; state = pending }

abbrev waiting : Steer
waiting = record fresh { inputs = note ∷ [] }

note_valid : id_valid (codes "note") ≡ true
unfolding id_valid has_dot_dot has_prefix
note_valid = refl

waiting-IsQueue : IsQueue waiting
unfolding outstanding
waiting-IsQueue = record {
  ordered = tt;
  unique = (tt, tt);
  sound = ((note_valid, refl), tt);
  room = omega arith;
  few = omega arith;
}

waiting_active : steer_active host waiting ≡ true
unfolding steer_active
waiting_active = refl

drain-IsDrained_example : IsDrained waiting [] (drain 2 host 0 waiting)
drain-IsDrained_example =
    drain-IsDrained host waiting 2 waiting_active refl (λ e. cc, tt) waiting-IsQueue few
  where
    few : outstanding waiting.inputs < 2
    few = unfold outstanding in omega arith
