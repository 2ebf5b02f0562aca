-- ===== src/Delivery/Concurrent.antt =====
-- Requests to take an item that run at the same time, and the rows that the order consumer makes of their
-- events, where calls fail on both sides and the consumer crashes.
use redis_api.Common.{
  ℕ, suc, ◌+◌, ◌≤◌, ◌≡◌, ◌∙◌, refl, ap, none, some, false, List, [], ◌∷◌, ◌++◌, length,
  length-append, arith,
}
use redis_api.Service.{InventoryEvent}
use redis_api.Service.World.{Systems as Market, World as MarketWorld}
use redis_api.Product.{inventory_key}
use redis_api.Product.Ledger.System.{System, Reach}
use redis_api.Product.Ledger.Holds.{Holds}
use redis_api.Product.Ledger.Invariant.{OwesAll, Ledger}
use redis_api.Product.Ledger.Conservation.{opening, items_conserved}
use redis_api.Orders.{Order}
use redis_api.Orders.World.{clashes, Systems, World}
use redis_api.Orders.Consumer.{rows_of, waiting, consume}
use redis_api.Orders.Consumer.Calm.{held}
use redis_api.Orders.Consumer.Restart.{NoneLost, NoneLostInLives, to_read, lives}
use redis_api.Orders.Consumer.Restart.Resume.{crashes_lose_nothing}
use redis_api.Delivery.{rows_from}
use redis_api.Delivery.Stored.{arrivals-rows}
use redis_api.Delivery.Crashes.{in_partition, log_of, arrivals-IsRun}

length-rows_from :
    (place : ℕ → ℕ × ℕ) (k : ℕ) (es : List InventoryEvent)
    → length (rows_from place k es) ≡ length es
length-rows_from place k [] = refl
length-rows_from place k (e ∷ es) = omega (arith, length-rows_from place (suc k) es)

-- Where the items are: in stock, in the hands of requests, lost by rejected calls to Redis, taken off by
-- resets (counted at each SET), and in rows, of which there were `before` at first, as many as there are now in `held`.
pub record Accounted (m : Market) (n : ℕ) (before held : List Order) (s : System m) : Type 0 where
  pub stock : ℕ
  pub hands : ℕ
  pub lost : ℕ
  pub owes : OwesAll hands s.requests
  pub holds : Holds m stock hands s.world.redis
  pub few : lost ≤ s.rejections
  pub balance :
      stock + length held + hands + lost + s.withdrawn
      ≡ n + length before + s.duplicated + s.granted

module _ (m : Market) (y : Systems) (p k : ℕ) where
  accounted :
      (n : ℕ) (w : MarketWorld m) (s : System m) (published : List InventoryEvent)
      (before held : List Order)
      → Ledger m (n + length (m.broker.delivered w.kafka)) s
      → m.broker.delivered s.world.kafka ≡ m.broker.delivered w.kafka ++ published
      → held ≡ before ++ rows_from (in_partition p) k published
      → Accounted m n before held s
  accounted n w s published before held g since stored = record {
    stock = g.stock;
    hands = g.hands;
    lost = g.lost;
    owes = g.owes;
    holds = g.holds;
    few = g.few;
    balance = omega (
      arith,
      g.balance,
      ap length since,
      length-append (m.broker.delivered w.kafka) published,
      ap length stored,
      length-append before (rows_from (in_partition p) k published),
      length-rows_from (in_partition p) k published,
    );
  }

  -- From a stock of n that never expires, requests to take an item, to read the stock or to reset it,
  -- interleaved at every call and with any of their calls failing; the events that they have published
  -- come to one partition, where the consumer reads on, crashes and is started anew any number of times,
  -- between two events or at any call of a flush, its calls failing too, as long as no flush gives up a
  -- batch that is new to the table. Then each published event is one row of the table or one event in the
  -- buffer, in their order, after the rows that were there; and the stock, the rows and buffered events, the
  -- items in the hands of unfinished requests, the lost items and those that resets took off, at each reset
  -- all that stood in the key, add up to the first stock, the first rows, one for each event whose sender
  -- was told that it failed, and 1000 for each reset that was carried out; no more items are lost than calls
  -- to Redis were rejected.
  pub items_in_rows :
      (n : ℕ) (w : MarketWorld m) (s : System m) (published : List InventoryEvent)
      (ls : List (ℕ × ℕ)) (v : World y)
      → Holds m n 0 w.redis
      → m.server.time_to_live inventory_key w.redis ≡ none
      → Reach m (opening m w) s
      → m.broker.delivered s.world.kafka ≡ m.broker.delivered w.kafka ++ published
      → y.group.position p v.group ≡ some k
      → clashes (rows_from (in_partition p) k published) (rows_of y v) ≡ false
      → NoneLostInLives y p (log_of m y p k published) ls v
      → NoneLost y
          (to_read y p (log_of m y p k published) (lives y p (log_of m y p k published) ls v))
          (waiting y [] (lives y p (log_of m y p k published) ls v))
      → let last = lives y p (log_of m y p k published) ls v in
        let rows =
          held y (consume y (to_read y p (log_of m y p k published) last) (waiting y [] last)) in
        (rows ≡ rows_of y v ++ rows_from (in_partition p) k published)
        × Accounted m n (rows_of y v) rows s
  items_in_rows n w s published ls v holds untimed r since at new kept last =
      let rows = arrivals-rows (in_partition p) k published in
      let stored =
        crashes_lose_nothing y p k (log_of m y p k published) ls v (arrivals-IsRun p k published) at
          (rw rows new) kept last
        ∙ ap (λ l. rows_of y v ++ l) rows in
      (
        stored,
        accounted n w s published (rows_of y v) _ (items_conserved m n w holds untimed r) since
            stored,
      )
