-- ===== src/Steering/Histories.antt =====
-- The calls of src/dstudio_steering.c in any order: what the queue is, and what the transcript gets.
use dstudio.Base.{ℕ, List, [], ◌∷◌, ◌++◌, Option, some, none, Str}
use dstudio.Steering.{api_steer, api_steer_pull, steer_prepare}
use dstudio.Steering.Types.{Steer, Host, Request, Pull, Reply}
use dstudio.Steering.Kept.{api_steer-IsQueue}
use dstudio.Steering.Kept.Pulls.{api_steer_pull-IsQueue, steer_prepare-IsQueue}
use dstudio.Steering.Queue.{IsQueue}

-- `prepare` is the start of an engine, with the random bytes that it reads.
pub data Event : Type 0 where
  prepare : Option (List ℕ) → Event
  submit : Host → Option Request → Event
  fetch : Host → Option Pull → Event

-- The state, the bytes that the transcript gets, and the reply.
unfoldable pub take_event : Event → Steer → Steer × Str × Option Reply
take_event (prepare bytes) s = (steer_prepare bytes, [], none)
take_event (submit h r) s = let (s', reply) = api_steer h r s in (s', [], some reply)
take_event (fetch h p) s =
    let (s', appended, reply) = api_steer_pull h p s in (s', appended, some reply)

unfoldable pub history : List Event → Steer → Steer × Str
history [] s = (s, [])
history (e ∷ events) s =
    let (s', appended, _) = take_event e s in
    let (s'', later) = history events s' in (s'', appended ++ later)

pub take_event-IsQueue : (e : Event) (s : Steer) → IsQueue s → IsQueue (take_event e s).0
unfolding take_event
take_event-IsQueue (prepare bytes) s q = steer_prepare-IsQueue bytes
take_event-IsQueue (submit h r) s q = api_steer-IsQueue h r s q
take_event-IsQueue (fetch h p) s q = api_steer_pull-IsQueue h p s q

history_keeps : (events : List Event) (s : Steer) → IsQueue s → IsQueue (history events s).0
unfolding history
history_keeps [] s q = q
history_keeps (e ∷ events) s q = history_keeps events (take_event e s).0 (take_event-IsQueue e s q)

-- Whatever is submitted and fetched, in any order, after the start of an engine: the inputs of the
-- turn have valid, distinct ids and texts that are not empty; they are at most 128, of which at
-- most 16 are not applied; and the applied ones come first, then at most one that is delivered,
-- then those that are pending.
pub history-IsQueue :
    (bytes : Option (List ℕ)) (events : List Event)
    → IsQueue (history events (steer_prepare bytes)).0
history-IsQueue bytes events =
    history_keeps events (steer_prepare bytes) (steer_prepare-IsQueue bytes)
