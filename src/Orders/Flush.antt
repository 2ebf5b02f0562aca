-- ===== src/Orders/Flush.antt =====
-- What `flush` of order-consumer/src/orders/order.service.ts leaves in the table and commits, over
-- every failure of its calls.
pub mod Stops
use redis_api.Common.{
  ℕ, zero, suc, ◌+◌, ◌<◌, ◌≡◌, ◌∙◌, refl, ap, ◌⊎◌, inl, inr, Bool, true, false, some, List, [], ◌∷◌,
  ◌++◌, map, Answer, answer, error, arith, ==_iff,
}
use redis_api.Effect.{Outcome, returned, thrown, run-bind, continue}
use redis_api.Orders.{
  Event, Order, to_order, commits, insert, update, commit_offsets, Attempt, done, failed, back_off,
  commit_end, save_end, try_batch, flush_loop, flush, next_attempt, max_retries, Method,
}
use redis_api.Orders.Commit.{In, offset_for, commits-pass}
use redis_api.Orders.World.{
  has_key, clashes, Systems, World, Fault, sound, unsent, unanswered, execute, meet, next_fault,
  perform, alone,
}

has_key_self : (o : Order) (rs os : List Order) → has_key o (rs ++ (o ∷ os)) ≡ true
unfolding has_key
has_key_self o [] os =
    ground (arith, ==_iff o.kafka_partition o.kafka_partition, ==_iff o.kafka_offset o.kafka_offset)
has_key_self o (r ∷ rs) os = ground (arith, has_key_self o rs os)

-- Rows that were written clash with themselves.
pub clashes_self :
    (o : Order) (os rs later : List Order) → clashes (o ∷ os) (rs ++ (o ∷ later)) ≡ true
unfolding clashes
clashes_self o os rs later = rw (has_key_self o rs later) refl

module _ (y : Systems) (e : Event) (es : List Event) (w0 : World y)
    (new : clashes (map to_order (e ∷ es)) (y.table.rows w0.table) ≡ false) where
  abbrev orders : List Order
  orders = map to_order (e ∷ es)

  -- Every row of the batch was written, once.
  abbrev pub Saved : World y → Type 0
  Saved w = y.table.rows w.table ≡ y.table.rows w0.table ++ orders

  -- Between two calls; `stored` is whether the entities have ids.
  abbrev Stage : Bool → World y → Type 0
  Stage true w = Saved w
  Stage false w = (w.group ≡ w0.group) × ((y.table.rows w.table ≡ y.table.rows w0.table) ⊎ Saved w)

  -- Every event of the batch lies below the position of its partition.
  abbrev pub Passed : World y → Type 0
  Passed w =
      (x : Event)
      → In x (e ∷ es)
      → (m : ℕ) × (y.group.position x.partition w.group ≡ some m) × (x.offset < m)

  -- The group reads each partition on from what the batch commits for it.
  abbrev pub Committed : World y → Type 0
  Committed w =
      (p n : ℕ) → offset_for p (commits (e ∷ es)) ≡ some n → y.group.position p w.group ≡ some n

  abbrev SaveOk : Bool → Answer (Unit {0}) × World y → Type 0
  SaveOk stored (answer u, w) = Saved w
  SaveOk stored (error, w) = Stage stored w

  abbrev CommitOk : Answer (Unit {0}) × World y → Type 0
  CommitOk (answer u, w) = Saved w × Passed w × Committed w
  CommitOk (error, w) = Saved w

  insert-fresh :
      (w : World y)
      → y.table.rows w.table ≡ y.table.rows w0.table
      → ((y.table.insert_rows orders w.table).0 ≡ answer tt)
        × (y.table.rows (y.table.insert_rows orders w.table).1 ≡ y.table.rows w0.table ++ orders)
  insert-fresh w h =
      let (a, r) = y.table.insert-new orders w.table (ap (clashes orders) h ∙ new) in
      (a, r ∙ ap (λ t. t ++ orders) h)

  insert-again : (w : World y) → Saved w → y.table.insert_rows orders w.table ≡ (error, w.table)
  insert-again w h = y.table.insert-clash orders w.table (
      ap (clashes orders) h
      ∙ clashes_self (to_order e) (map to_order es) (y.table.rows w0.table) (map to_order es))

  insert-ok : (f : Fault) (w : World y) → Stage false w → SaveOk false (meet y f (insert orders) w)
  unfolding execute
  insert-ok sound w (g, inl h) = rw ((insert-fresh w h).0) ((insert-fresh w h).1)
  insert-ok sound w (g, inr h) = rw (insert-again w h) (g, inr h)
  insert-ok unsent w s = s
  insert-ok unanswered w (g, inl h) = (g, inr ((insert-fresh w h).1))
  insert-ok unanswered w (g, inr h) = rw (insert-again w h) (g, inr h)

  update-ok : (f : Fault) (w : World y) → Saved w → SaveOk true (meet y f (update orders) w)
  unfolding execute
  update-ok sound w s = rw (y.table.update_lem orders w.table) s
  update-ok unsent w s = s
  update-ok unanswered w s = rw (y.table.update_lem orders w.table) s

  commit-ok :
      (f : Fault) (w : World y)
      → Saved w
      → CommitOk (meet y f (commit_offsets (commits (e ∷ es))) w)
  unfolding execute
  commit-ok sound w s = (
    s,
    λ x i.
        let (m, set, below) = commits-pass (e ∷ es) x i in
        (m, y.group.position-commit x.partition (commits (e ∷ es)) w.group ∙ rw set refl, below),
    λ p n set. y.group.position-commit p (commits (e ∷ es)) w.group ∙ rw set refl,
  )
  commit-ok unsent w s = s
  commit-ok unanswered w s = s

  -- After an attempt.
  abbrev After : Outcome Attempt × World y → Type 0
  After (returned done, w) = Saved w × Passed w × Committed w
  After (returned (failed stored), w) = Stage stored w
  After (thrown x, w) = ⊥

  back_off-After :
      (attempt : ℕ) (stored : Bool) (w : World y)
      → Stage stored w
      → After (alone y (back_off attempt stored) w)
  unfolding back_off perform
  back_off-After attempt true w s = s
  back_off-After attempt false w s = s

  -- The second half of `try`, after the commit was answered or not.
  commit_end-After :
      (attempt : ℕ) (x : Answer (Unit {0}) × World y)
      → CommitOk x
      → After (alone y (commit_end attempt x.0) x.1)
  unfolding commit_end
  commit_end-After attempt (answer u, w) s = s
  commit_end-After attempt (error, w) s = back_off-After attempt true w s

  save_end-After :
      (attempt : ℕ) (stored : Bool) (x : Answer (Unit {0}) × World y)
      → SaveOk stored x
      → After (alone y (save_end (e ∷ es) attempt stored x.0) x.1)
  unfolding save_end perform
  save_end-After attempt stored (answer u, w) s =
      commit_end-After attempt _ (commit-ok (next_fault y w.faults) _ s)
  save_end-After attempt stored (error, w) s = back_off-After attempt stored w s

  try_batch-After :
      (attempt : ℕ) (stored : Bool) (w : World y)
      → Stage stored w
      → After (alone y (try_batch (e ∷ es) attempt stored) w)
  unfolding try_batch perform
  try_batch-After attempt true w s =
      save_end-After attempt true _ (update-ok (next_fault y w.faults) _ s)
  try_batch-After attempt false w s =
      save_end-After attempt false _ (insert-ok (next_fault y w.faults) _ s)

  -- A flush that returns true has saved the batch once and moved the group past it, to what the batch commits; one that returns
  -- false has saved it once or not at all, and where it did not save it the group has not moved.
  abbrev pub Flushed : Outcome Bool × World y → Type 0
  Flushed (returned true, w) = Saved w × Passed w × Committed w
  Flushed (returned false, w) =
      Saved w ⊎ ((y.table.rows w.table ≡ y.table.rows w0.table) × (w.group ≡ w0.group))
  Flushed (thrown x, w) = ⊥

  gave_up : (stored : Bool) (w : World y) → Stage stored w → Flushed (returned false, w)
  gave_up true w s = inl s
  gave_up false w (g, inl h) = inr (h, g)
  gave_up false w (g, inr h) = inl h

  onward :
      (again : Bool → Method Bool)
      → ((stored : Bool) (w : World y) → Stage stored w → Flushed (alone y (again stored) w))
      → (x : Outcome Attempt × World y) → After x
      → Flushed (continue (perform y) (next_attempt again) x)
  onward again h (returned done, w) s = s
  onward again h (returned (failed stored), w) s = h stored w s
  onward again h (thrown x, w) s = s

  loop-Flushed :
      (left attempt : ℕ) (stored : Bool) (w : World y)
      → Stage stored w
      → Flushed (alone y (flush_loop (e ∷ es) left attempt stored) w)
  unfolding flush_loop
  loop-Flushed zero attempt stored w s = gave_up stored w s
  loop-Flushed (suc left) attempt stored w s =
      rw
        (run-bind (perform y) (try_batch (e ∷ es) attempt stored)
          (next_attempt (λ st. flush_loop (e ∷ es) left (attempt + 1) st)) w)
        (onward _ (loop-Flushed left (attempt + 1)) (alone y (try_batch (e ∷ es) attempt stored) w)
          (try_batch-After attempt stored w s))

  -- A flush of events that are not in the table yet, under any failures of its calls, ends without
  -- throwing. If it returns true, the rows of the batch were added once, and the group reads each
  -- partition of the batch on from the offset that the batch commits for it, past every event of the
  -- batch. If it returns false, the rows were added once, or else neither the rows nor the group has
  -- changed.
  pub flush-Flushed : Flushed (alone y (flush (e ∷ es)) w0)
  unfolding flush
  flush-Flushed = loop-Flushed max_retries 1 false w0 (refl, inl refl)
