-- ===== src/Delivery/Crashes.antt =====
-- The rows that the order consumer makes of the events of a sequence of sales, where its calls fail and
-- it crashes.
use mathlib.Core.Path.{subst}
use mathlib.Core.List.{append_cancel_left}
use redis_api.Common.{ℕ, suc, ◌+◌, ◌≡◌, ◌∙◌, refl, sym, ap, some, false, List, [], ◌∷◌, ◌++◌, arith}
use redis_api.Service.{InventoryEvent}
use redis_api.Service.World.{Systems as Market, World as MarketWorld}
use redis_api.Orders.{Event}
use redis_api.Orders.World.{clashes, Systems, World}
use redis_api.Orders.Consumer.{rows_of, waiting, consume}
use redis_api.Orders.Consumer.Calm.{held}
use redis_api.Orders.Consumer.Restart.{IsRun, NoneLost, NoneLostInLives, to_read, lives}
use redis_api.Orders.Consumer.Restart.Resume.{crashes_lose_nothing}
use redis_api.Delivery.{Sale, run_sales, books, arrivals, rows_from}
use redis_api.Delivery.Sales.{HasStock, run_sales-Booked}
use redis_api.Delivery.Stored.{arrivals-rows}

-- The places of one partition, one after the other.
abbrev pub in_partition : ℕ → ℕ → ℕ × ℕ
in_partition p k = (p, k)

pub arrivals-IsRun :
    (p k : ℕ) (es : List InventoryEvent) → IsRun p k (arrivals (in_partition p) k es)
arrivals-IsRun p k [] = tt
arrivals-IsRun p k (e ∷ es) =
    let next : suc k ≡ k + 1 = omega arith in
    (
      refl,
      refl,
      subst (λ i. IsRun p i (arrivals (in_partition p) (suc k) es)) next
          (arrivals-IsRun p (suc k) es),
    )

module _ (m : Market) (y : Systems) (p k : ℕ) where
  -- The published events as the consumer's partition has them.
  abbrev pub log_of : List InventoryEvent → List Event
  log_of published = arrivals (in_partition p) k published

  -- From a stock of n with the lock free, requests to take an item, one after the other, of whose calls
  -- at most the emits fail; the events that they publish come to one partition, where the consumer reads
  -- on. It crashes and is started anew any number of times, between two events or at any call of a flush,
  -- and its calls may fail, as long as no flush gives up a batch that is new to the table. Then the rows
  -- that were there, and one for each event of the books, in their order and each once, are the rows of
  -- the table and the events in the buffer.
  pub sales_survive_crashes :
      (sales : List Sale) (n : ℕ) (ls : List (ℕ × ℕ)) (w : MarketWorld m) (v : World y)
      (published : List InventoryEvent)
      → HasStock m n w
      → m.broker.delivered (run_sales m sales w).1.kafka ≡ m.broker.delivered w.kafka ++ published
      → y.group.position p v.group ≡ some k
      → clashes (rows_from (in_partition p) k (books sales n).events) (rows_of y v) ≡ false
      → NoneLostInLives y p (log_of published) ls v
      → NoneLost y
          (to_read y p (log_of published) (lives y p (log_of published) ls v))
          (waiting y [] (lives y p (log_of published) ls v))
      → held y (
          consume y
            (to_read y p (log_of published) (lives y p (log_of published) ls v))
            (waiting y [] (lives y p (log_of published) ls v)))
        ≡ rows_of y v ++ rows_from (in_partition p) k (books sales n).events
  sales_survive_crashes sales n ls w v published h since at new kept last =
      let booked = run_sales-Booked m sales n w h in
      let same : published ≡ (books sales n).events =
        append_cancel_left (m.broker.delivered w.kafka) published (books sales n).events
          (sym since ∙ booked.1) in
      let rows =
        arrivals-rows (in_partition p) k published ∙ ap (rows_from (in_partition p) k) same in
      crashes_lose_nothing y p k (log_of published) ls v (arrivals-IsRun p k published) at
        (rw rows new) kept last
      ∙ ap (λ l. rows_of y v ++ l) rows
