-- ===== src/Orders/Replay/Stops.antt =====
-- What a crash leaves at any call of a flush of order-consumer/src/orders/order.service.ts whose batch
-- was stored before.
use redis_api.Common.{
  ℕ, zero, suc, ◌+◌, ◌≡◌, refl, Bool, true, false, List, map, Answer, answer, error,
}
use redis_api.Orders.{
  Event, to_order, Attempt, done, failed, save_end, try_batch, flush_loop, flush, back_off,
  next_attempt, max_retries, Method,
}
use redis_api.Orders.Stop.{stop, Steps, bind-Steps, stop-Steps}
use redis_api.Orders.World.{clashes, Systems, World, next_fault, perform, execute}
use redis_api.Orders.Replay.{Untouched, Refused, insert-Refused}

module _ (y : Systems) (batch : List Event) (w0 : World y)
    (stale : clashes (map to_order batch) (y.table.rows w0.table) ≡ true) where
  abbrev Same : World y → Type 0
  Same = Untouched y batch w0 stale

  abbrev Tried : Attempt → World y → Type 0
  Tried (failed false) w = Same w
  Tried _ w = ⊥

  abbrev Ended : Bool → World y → Type 0
  Ended b w = Unit

  save_end-Steps :
      (attempt : ℕ) (x : Answer (Unit {0}) × World y)
      → Refused y batch w0 stale x
      → Steps y Same Tried (save_end batch attempt false x.0) x.1
  unfolding save_end back_off perform execute
  save_end-Steps attempt (answer u, w) h = absurd h
  save_end-Steps attempt (error, w) h = (h, (h, h))

  onward :
      (again : Bool → Method Bool)
      → ((w : World y) → Same w → Steps y Same Ended (again false) w)
      → (a : Attempt) (w : World y) → Tried a w
      → Steps y Same Ended (next_attempt again a) w
  onward again on done w h = absurd h
  onward again on (failed true) w h = absurd h
  onward again on (failed false) w h = on w h

  loop-Steps :
      (left attempt : ℕ) (w : World y)
      → Same w
      → Steps y Same Ended (flush_loop batch left attempt false) w
  unfolding flush_loop try_batch perform
  loop-Steps zero attempt w h = (h, tt)
  loop-Steps (suc left) attempt w h =
      bind-Steps y Same Tried Ended (try_batch batch attempt false)
        (next_attempt (λ st. flush_loop batch left (attempt + 1) st)) w
        (h, save_end-Steps attempt _ (insert-Refused y batch w0 stale (next_fault y w.faults) _ h))
        (onward _ (λ w' h'. loop-Steps left (attempt + 1) w' h'))

  -- Neither the table nor the group has changed.
  pub flush-Untouched : (n : ℕ) → Untouched y batch w0 stale (stop y n (flush batch) w0)
  unfolding flush
  flush-Untouched n =
      stop-Steps y Same Ended n (flush_loop batch max_retries 1 false) w0
        (loop-Steps max_retries 1 w0 (refl, refl))
