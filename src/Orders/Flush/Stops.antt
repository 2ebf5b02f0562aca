-- ===== src/Orders/Flush/Stops.antt =====
-- What a crash at any call of `flush` of order-consumer/src/orders/order.service.ts leaves.
use redis_api.Common.{
  ℕ, zero, suc, ◌+◌, ◌≡◌, ◌∙◌, refl, ◌⊎◌, inl, inr, Bool, true, false, List, ◌∷◌, map, Answer,
  answer, error,
}
use redis_api.Orders.{
  Event, to_order, commits, commit_offsets, save_call, Attempt, done, failed, back_off, commit_end,
  save_end, try_batch, flush_loop, flush, next_attempt, max_retries, Method,
}
use redis_api.Orders.Stop.{stop, Steps, bind-Steps, stop-Steps}
use redis_api.Orders.World.{
  clashes, Systems, World, Fault, sound, unsent, unanswered, execute, meet, next_fault, perform,
}
use redis_api.Orders.Flush.{Saved, Committed, Stage, insert-fresh, insert-again, orders}

module _ (y : Systems) (e : Event) (es : List Event) (w0 : World y)
    (new : clashes (map to_order (e ∷ es)) (y.table.rows w0.table) ≡ false) where
  abbrev IsSaved : World y → Type 0
  IsSaved = Saved y e es w0 new

  -- The group has not moved, or it has moved to what the batch commits.
  abbrev Moved : World y → Type 0
  Moved w = (w.group ≡ w0.group) ⊎ Committed y e es w0 new w

  -- All rows of the batch were added, or none and nothing committed.
  abbrev pub Whole : World y → Type 0
  Whole w =
      ((w.group ≡ w0.group) × (y.table.rows w.table ≡ y.table.rows w0.table))
      ⊎ (IsSaved w × Moved w)

  -- Between two attempts; `stored` is whether the entities have ids.
  abbrev Known : Bool → World y → Type 0
  Known true w = IsSaved w × Moved w
  Known false w = Stage y e es w0 new false w

  Known-Whole : (stored : Bool) (w : World y) → Known stored w → Whole w
  Known-Whole true w h = inr h
  Known-Whole false w (g, inl same) = inl (g, same)
  Known-Whole false w (g, inr saved) = inr (saved, inl g)

  abbrev SaveKnown : Bool → Answer (Unit {0}) × World y → Type 0
  SaveKnown stored (answer u, w) = Known true w
  SaveKnown stored (error, w) = Known stored w

  save-Known :
      (stored : Bool) (f : Fault) (w : World y)
      → Known stored w
      → SaveKnown stored (meet y f (save_call stored (orders y e es w0 new)) w)
  unfolding execute
  save-Known true sound w h = rw (y.table.update_lem (orders y e es w0 new) w.table) h
  save-Known true unsent w h = h
  save-Known true unanswered w h = rw (y.table.update_lem (orders y e es w0 new) w.table) h
  save-Known false sound w (g, inl h) =
      rw ((insert-fresh y e es w0 new w h).0) ((insert-fresh y e es w0 new w h).1, inl g)
  save-Known false sound w (g, inr h) = rw (insert-again y e es w0 new w h) (g, inr h)
  save-Known false unsent w h = h
  save-Known false unanswered w (g, inl h) = (g, inr ((insert-fresh y e es w0 new w h).1))
  save-Known false unanswered w (g, inr h) = rw (insert-again y e es w0 new w h) (g, inr h)

  commit-Known :
      (f : Fault) (w : World y)
      → Known true w
      → Known true (meet y f (commit_offsets (commits (e ∷ es))) w).1
  unfolding execute
  commit-Known sound w h =
      (h.0, inr (λ p n set. y.group.position-commit p (commits (e ∷ es)) w.group ∙ rw set refl))
  commit-Known unsent w h = h
  commit-Known unanswered w h =
      (h.0, inr (λ p n set. y.group.position-commit p (commits (e ∷ es)) w.group ∙ rw set refl))

  abbrev Tried : Attempt → World y → Type 0
  Tried done w = Whole w
  Tried (failed stored) w = Known stored w

  back_off-Steps :
      (attempt : ℕ) (stored : Bool) (w : World y)
      → Known stored w
      → Steps y Whole Tried (back_off attempt stored) w
  unfolding back_off perform execute
  back_off-Steps attempt true w h = (inr h, (inr h, h))
  back_off-Steps attempt false w h = (Known-Whole false w h, (Known-Whole false w h, h))

  commit_end-Steps :
      (attempt : ℕ) (a : Answer (Unit {0})) (w : World y)
      → Known true w
      → Steps y Whole Tried (commit_end attempt a) w
  unfolding commit_end
  commit_end-Steps attempt (answer u) w h = (inr h, inr h)
  commit_end-Steps attempt error w h = back_off-Steps attempt true w h

  save_end-Steps :
      (attempt : ℕ) (stored : Bool) (x : Answer (Unit {0}) × World y)
      → SaveKnown stored x
      → Steps y Whole Tried (save_end (e ∷ es) attempt stored x.0) x.1
  unfolding save_end perform
  save_end-Steps attempt stored (answer u, w) h =
      (inr h, commit_end-Steps attempt _ _ (commit-Known (next_fault y w.faults) _ h))
  save_end-Steps attempt stored (error, w) h = back_off-Steps attempt stored w h

  try_batch-Steps :
      (attempt : ℕ) (stored : Bool) (w : World y)
      → Known stored w
      → Steps y Whole Tried (try_batch (e ∷ es) attempt stored) w
  unfolding try_batch perform
  try_batch-Steps attempt true w h =
      (inr h, save_end-Steps attempt true _ (save-Known true (next_fault y w.faults) _ h))
  try_batch-Steps attempt false w h = (
    Known-Whole false w h,
    save_end-Steps attempt false _ (save-Known false (next_fault y w.faults) _ h),
  )

  abbrev Ended : Bool → World y → Type 0
  Ended b w = Unit

  onward :
      (again : Bool → Method Bool)
      → ((st : Bool) (w : World y) → Known st w → Steps y Whole Ended (again st) w)
      → (a : Attempt) (w : World y) → Tried a w
      → Steps y Whole Ended (next_attempt again a) w
  onward again on done w h = (h, tt)
  onward again on (failed st) w h = on st w h

  loop-Steps :
      (left attempt : ℕ) (stored : Bool) (w : World y)
      → Known stored w
      → Steps y Whole Ended (flush_loop (e ∷ es) left attempt stored) w
  unfolding flush_loop
  loop-Steps zero attempt stored w h = (Known-Whole stored w h, tt)
  loop-Steps (suc left) attempt stored w h =
      bind-Steps y Whole Tried Ended (try_batch (e ∷ es) attempt stored)
        (next_attempt (λ st. flush_loop (e ∷ es) left (attempt + 1) st)) w
        (try_batch-Steps attempt stored w h)
        (onward _ (λ st w' h'. loop-Steps left (attempt + 1) st w' h'))

  -- A crash at any call of a flush of events that are not in the table yet, whatever the calls before it
  -- met, leaves the batch whole: either neither the rows nor the group has changed, or every row was
  -- added, once, and the group reads on from where it did or from what the batch commits.
  pub flush-Whole : (n : ℕ) → Whole (stop y n (flush (e ∷ es)) w0)
  unfolding flush
  flush-Whole n =
      stop-Steps y Whole Ended n (flush_loop (e ∷ es) max_retries 1 false) w0
        (loop-Steps max_retries 1 false w0 (refl, inl refl))
