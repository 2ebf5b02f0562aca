-- ===== src/Orders/Queue.antt =====
-- What the order service promises, forgetting the flag and the flight: a queue from which batches are
-- taken off the front, in the order in which the events came in.
use redis_api.Common.{◌≡◌, Bool, List, [], ◌∷◌, ◌++◌, length}
use redis_api.Orders.{Event, batch_size}
use redis_api.Orders.Service.{Service, Reach, here, next, Step, arrive, settle}

pub record Queue : Type 0 where
  pub pending : List Event
  pub finished : List (List Event × Bool)

-- What is seen of the service from outside: an event comes in, or a flush ends.
pub data Label : Type 0 where
  came : Event → Label
  ended : List Event → Bool → Label

-- The event goes to the end of the queue; the full batch is taken off the front, saved or not, and
-- everything behind it stays.
pub data Move (q : Queue) : Label → Queue → Type 0 where
  enqueue : (e : Event) → Move q (came e) (record q { pending = q.pending ++ e ∷ [] })
  take_off :
      (batch rest : List Event) (saved : Bool)
      → q.pending ≡ batch ++ rest
      → length batch ≡ batch_size
      → Move q
          (ended batch saved)
          (record { pending = rest; finished = q.finished ++ (batch, saved) ∷ [] })

pub data Moves (q : Queue) : List Label → Queue → Type 0 where
  still : Moves q [] q
  then :
      {ls : List Label} {l : Label} {r t : Queue}
      → Moves q ls r
      → Move r l t
      → Moves q (ls ++ l ∷ []) t

abbrev pub empty : Queue
empty = record { pending = []; finished = [] }

abbrev pub view : Service → Queue
view s = record { pending = s.state.buffer; finished = s.ended }

abbrev pub label : {s t : Service} → Step s t → Label
label (arrive e) = came e
label (settle batch saved f) = ended batch saved

-- What was seen on the way to a state, in order.
unfoldable pub trace : {s t : Service} → Reach s t → List Label
trace here = []
trace (next r st) = trace r ++ label st ∷ []
