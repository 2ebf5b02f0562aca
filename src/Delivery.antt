-- ===== src/Delivery.antt =====
-- From a sale to its row in Postgres: the events that src/product/product.controller.ts publishes are
-- those that order-consumer/src/orders writes. Kafka, which carries them, keeps
-- the events of the topic in order.
pub mod Sales
pub mod Stored
pub mod Crashes
pub mod Concurrent
mod Tests
use redis_api.Common.{ℕ, zero, suc, true, List, [], ◌∷◌, ◌++◌, Option, some, none}
use redis_api.Common.Int.{pos}
use redis_api.Text.{Str}
use redis_api.Effect.{Outcome}
use redis_api.Service.{InventoryEvent}
use redis_api.Service.World.{Systems, World, Fault, sound, unsent, unanswered, alone}
use redis_api.Product.{UseItemReply, item_message, item_used, sold_out, use_item}
use redis_api.Product.Sale.{emit_meets}
use redis_api.Orders.{Dto, Event, Order}

-- A request to take an item: its correlation id, and what the emit meets if it comes to that.
abbrev pub Sale : Type 0
Sale = Str × Fault

module _ (y : Systems) where
  -- One request after the other.
  unfoldable pub run_sales : List Sale → World y → List (Outcome UseItemReply) × World y
  run_sales [] w = ([], w)
  run_sales ((id, f) ∷ sales) w =
      let (o, w') = alone y (use_item (some id)) (emit_meets f) w in
      let (os, w'') = run_sales sales w' in (o ∷ os, w'')

-- The event of the sale that leaves `n`, and its reply.
abbrev pub event_of : Str → ℕ → InventoryEvent
event_of id n = record {
  remaining = pos n;
  success = true;
  message = item_message (pos n);
  correlation_id = id;
}

abbrev pub reply_of : ℕ → UseItemReply
reply_of n = record { success = true; remaining = pos n; message = item_message (pos n) }

-- What sales from a stock of `n` are answered, `none` for 503; what is published; and what is left.
pub record Books : Type 0 where
  pub replies : List (Option UseItemReply)
  pub events : List InventoryEvent
  pub left : ℕ

-- One sale on top of the books of the later ones.
abbrev pub entry : Option UseItemReply → List InventoryEvent → Books → Books
entry r es b = record { replies = r ∷ b.replies; events = es ++ b.events; left = b.left }

unfoldable pub books : List Sale → ℕ → Books
books [] n = record { replies = []; events = []; left = n }
books (s ∷ sales) zero = entry (some sold_out) [] (books sales zero)
books ((id, sound) ∷ sales) (suc n) = entry (some (reply_of n)) (event_of id n ∷ []) (books sales n)
books ((id, unsent) ∷ sales) (suc n) = entry none [] (books sales (suc n))
books ((id, unanswered) ∷ sales) (suc n) = entry none (event_of id n ∷ []) (books sales (suc n))

-- The JSON of an event as the consumer reads it.
abbrev pub received : InventoryEvent → Dto
received e = record {
  remaining = e.remaining;
  success = e.success;
  message = e.message;
  correlation_id = some e.correlation_id;
}

-- The `k`-th event of the topic is at the partition and the offset `place k`.
abbrev pub arrivals : (ℕ → ℕ × ℕ) → ℕ → List InventoryEvent → List Event
arrivals place k [] = []
arrivals place k (e ∷ es) =
    record { dto = received e; topic = item_used; partition = (place k).0; offset = (place k).1 }
    ∷ arrivals place (suc k) es

-- The row of an event.
abbrev pub row_of : ℕ × ℕ → InventoryEvent → Order
row_of p e = record {
  remaining = e.remaining;
  success = e.success;
  message = e.message;
  correlation_id = some e.correlation_id;
  kafka_partition = p.0;
  kafka_offset = p.1;
}

abbrev pub rows_from : (ℕ → ℕ × ℕ) → ℕ → List InventoryEvent → List Order
rows_from place k [] = []
rows_from place k (e ∷ es) = row_of (place k) e ∷ rows_from place (suc k) es
