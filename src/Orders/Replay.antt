-- ===== src/Orders/Replay.antt =====
-- What becomes of a batch of order-consumer/src/orders/order.service.ts in which one event was
-- stored before, as after a crash between the save and the commit.
pub mod Stops
use redis_api.Common.{
  ℕ, zero, suc, ◌+◌, ◌≡◌, ◌∙◌, refl, ap, Bool, true, false, List, map, Answer, answer, error,
}
use redis_api.Effect.{Outcome, returned, thrown, run-bind, continue}
use redis_api.Orders.{
  Event, to_order, insert, Attempt, done, failed, save_end, try_batch, flush_loop, flush,
  next_attempt, max_retries, Method,
}
use redis_api.Orders.World.{
  clashes, Systems, World, Fault, sound, unsent, unanswered, execute, meet, next_fault, perform,
  alone,
}

module _ (y : Systems) (batch : List Event) (w0 : World y)
    (stale : clashes (map to_order batch) (y.table.rows w0.table) ≡ true) where
  -- Neither the table nor the group has changed.
  abbrev pub Untouched : World y → Type 0
  Untouched w = (w.table ≡ w0.table) × (w.group ≡ w0.group)

  abbrev Refused : Answer (Unit {0}) × World y → Type 0
  Refused (answer u, w) = ⊥
  Refused (error, w) = Untouched w

  refused :
      (w : World y)
      → Untouched w
      → y.table.insert_rows (map to_order batch) w.table ≡ (error, w.table)
  refused w (t, g) =
      y.table.insert-clash (map to_order batch) w.table
        (ap (λ s. clashes (map to_order batch) (y.table.rows s)) t ∙ stale)

  insert-Refused :
      (f : Fault) (w : World y) → Untouched w → Refused (meet y f (insert (map to_order batch)) w)
  unfolding execute
  insert-Refused sound w u = rw (refused w u) u
  insert-Refused unsent w u = u
  insert-Refused unanswered w u = rw (refused w u) u

  abbrev Failed : Outcome Attempt × World y → Type 0
  Failed (returned done, w) = ⊥
  Failed (returned (failed true), w) = ⊥
  Failed (returned (failed false), w) = Untouched w
  Failed (thrown x, w) = ⊥

  save_end-Failed :
      (attempt : ℕ) (x : Answer (Unit {0}) × World y)
      → Refused x
      → Failed (alone y (save_end batch attempt false x.0) x.1)
  unfolding save_end perform
  save_end-Failed attempt (answer u, w) h = absurd h
  save_end-Failed attempt (error, w) h = h

  abbrev GivenUp : Outcome Bool × World y → Type 0
  GivenUp (returned true, w) = ⊥
  GivenUp (returned false, w) = Untouched w
  GivenUp (thrown x, w) = ⊥

  onward :
      (again : Bool → Method Bool)
      → ((w : World y) → Untouched w → GivenUp (alone y (again false) w))
      → (x : Outcome Attempt × World y) → Failed x
      → GivenUp (continue (perform y) (next_attempt again) x)
  onward again h (returned done, w) s = absurd s
  onward again h (returned (failed true), w) s = absurd s
  onward again h (returned (failed false), w) s = h w s
  onward again h (thrown x, w) s = absurd s

  loop-GivenUp :
      (left attempt : ℕ) (w : World y)
      → Untouched w
      → GivenUp (alone y (flush_loop batch left attempt false) w)
  unfolding flush_loop try_batch perform
  loop-GivenUp zero attempt w u = u
  loop-GivenUp (suc left) attempt w u =
      rw
        (run-bind (perform y) (try_batch batch attempt false)
          (next_attempt (λ st. flush_loop batch left (attempt + 1) st)) w)
        (onward _ (loop-GivenUp left (attempt + 1)) (alone y (try_batch batch attempt false) w)
          (save_end-Failed attempt _ (insert-Refused (next_fault y w.faults) _ u)))

  GivenUp-parts : (x : Outcome Bool × World y) → GivenUp x → (x.0 ≡ returned false) × Untouched x.1
  GivenUp-parts (returned true, w) h = absurd h
  GivenUp-parts (returned false, w) h = (refl, h)
  GivenUp-parts (thrown x, w) h = absurd h

  pub flush-stale :
      ((alone y (flush batch) w0).0 ≡ returned false) × Untouched (alone y (flush batch) w0).1
  unfolding flush
  flush-stale = GivenUp-parts _ (loop-GivenUp max_retries 1 w0 (refl, refl))
