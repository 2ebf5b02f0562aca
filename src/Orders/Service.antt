-- ===== src/Orders/Service.antt =====
-- OrderService of order-consumer/src/orders/order.service.ts over time: events arrive while a flush
-- waits for its calls. What the calls of a flush do is left open here: it ends at some time, saved
-- or not.
use redis_api.Common.{
  ◌≡◌, ◌∙◌, ap, Bool, true, false, Option, none, some, List, [], ◌∷◌, ◌++◌, length, drop,
  drop-length-append, arith,
}
use redis_api.Orders.{Event, Buffer, batch_size, end_flush, create_from_event}

-- The service, the batch of the flush that is suspended, and a record of the past: every event that
-- arrived, and the batches whose flush has ended with whether they were saved.
pub record Service : Type 0 where
  pub state : Buffer
  pub flight : Option (List Event)
  pub arrived : List Event
  pub ended : List (List Event × Bool)

abbrev pub or_flight : Option (List Event) → Option (List Event) → Option (List Event)
or_flight none f = f
or_flight (some b) f = some b

pub data Step (s : Service) : Service → Type 0 where
  -- `handleItemUsed` calls `createFromEvent`
  arrive :
      (e : Event)
      → Step s (record {
        state = (create_from_event e s.state).0;
        flight = or_flight (create_from_event e s.state).1 s.flight;
        arrived = s.arrived ++ e ∷ [];
        ended = s.ended;
      })
  -- the flush in flight ends
  settle :
      (batch : List Event) (saved : Bool)
      → s.flight ≡ some batch
      → Step s (record {
        state = end_flush batch s.state;
        flight = none;
        arrived = s.arrived;
        ended = s.ended ++ (batch, saved) ∷ [];
      })

pub data Reach (s : Service) : Service → Type 0 where
  here : Reach s s
  next : {t u : Service} → Reach s t → Step t u → Reach s u

abbrev pub new_service : Service
new_service = record {
  state = record { buffer = []; flushing = false };
  flight = none;
  arrived = [];
  ended = [];
}

abbrev pub batches : List (List Event × Bool) → List Event
batches [] = []
batches ((b, saved) ∷ bs) = b ++ batches bs

-- A flush is in flight exactly while the flag is set, and its batch is the front of the buffer; the
-- events that arrived are those of the ended batches and the buffer, in order.
abbrev pub InFlight : Option (List Event) → Buffer → Type 0
InFlight none b = b.flushing ≡ false
InFlight (some batch) b =
    (b.flushing ≡ true)
    × (length batch ≡ batch_size)
    × ((rest : List Event) × (b.buffer ≡ batch ++ rest))

pub record IsOrderly (s : Service) : Type 0 where
  pub in_flight : InFlight s.flight s.state
  pub in_order : s.arrived ≡ batches s.ended ++ s.state.buffer

abbrev pushed : Event → Buffer → Buffer
pushed e b = record b { buffer = b.buffer ++ e ∷ [] }

-- It appends the event in every case.
pub create-buffer : (e : Event) (b : Buffer) → (create_from_event e b).0.buffer ≡ b.buffer ++ e ∷ []
unfolding create_from_event
create-buffer e b = ground arith

-- What `createFromEvent` does to the flight.
abbrev Created : Event → Buffer → Option (List Event) → Buffer × Option (List Event) → Type 0
Created e b f (b', began) = (b'.buffer ≡ b.buffer ++ e ∷ []) × InFlight (or_flight began f) b'

-- `splice` drops what the flush took.
pub splice :
    (batch rest buffer : List Event) → buffer ≡ batch ++ rest → drop (length batch) buffer ≡ rest
splice batch rest buffer e = ap (drop (length batch)) e ∙ drop-length-append batch rest
