-- ===== src/Delivery/Stored.antt =====
-- The rows that the order consumer makes of the events of a sequence of sales.
use mathlib.Core.List.{append_cancel_left}
use redis_api.Common.{sym, ℕ, suc, ◌≡◌, ◌∙◌, refl, ap, false, List, [], ◌∷◌, ◌++◌, map}
use redis_api.Service.{InventoryEvent}
use redis_api.Service.World.{Systems as Market, World as MarketWorld}
use redis_api.Orders.{to_order}
use redis_api.Orders.World.{clashes, Systems, World}
use redis_api.Orders.Consumer.{rows_of, waiting, consume}
use redis_api.Orders.Consumer.Calm.{held, calm, consume_once}
use redis_api.Delivery.{Sale, run_sales, books, arrivals, row_of, rows_from}
use redis_api.Delivery.Sales.{HasStock, Booked, run_sales-Booked}

pub arrivals-rows :
    (place : ℕ → ℕ × ℕ) (k : ℕ) (es : List InventoryEvent)
    → map to_order (arrivals place k es) ≡ rows_from place k es
arrivals-rows place k [] = refl
arrivals-rows place k (e ∷ es) = ap (λ l. row_of (place k) e ∷ l) (arrivals-rows place (suc k) es)

module _ (m : Market) (y : Systems) (place : ℕ → ℕ × ℕ) where
  -- From a stock of n with the lock free, after requests to take an item, one after the other, of whose
  -- calls at most the emits fail: they were answered, and the stock is left, as the books say; and once
  -- the consumer, none of whose calls fails, was handed the events that were published meanwhile, at
  -- places that the table has not yet, its rows and the events in its buffer are the rows that were there,
  -- and one for each event of the books, in their order.
  sales_stored :
      (sales : List Sale) (n k : ℕ) (w : MarketWorld m) (v : World y)
      (published : List InventoryEvent)
      → HasStock m n w
      → m.broker.delivered (run_sales m sales w).1.kafka ≡ m.broker.delivered w.kafka ++ published
      → clashes (rows_from place k (books sales n).events) (rows_of y v) ≡ false
      → Booked m (books sales n) w (run_sales m sales w)
        × (held y (consume y (arrivals place k published) (waiting y [] (calm y v)))
            ≡ rows_of y v ++ rows_from place k (books sales n).events)
  sales_stored sales n k w v published h since new =
      let booked = run_sales-Booked m sales n w h in
      let same : published ≡ (books sales n).events =
        append_cancel_left (m.broker.delivered w.kafka) published (books sales n).events
          (sym since ∙ booked.1) in
      let rows = arrivals-rows place k published ∙ ap (rows_from place k) same in
      (
        booked,
        consume_once y (arrivals place k published) v (rw rows new)
            ∙ ap (λ l. rows_of y v ++ l) rows,
      )
