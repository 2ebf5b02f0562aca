-- ===== src/Orders/DeadLetter.antt =====
-- A batch that was given up, and the next one that succeeds, in
-- order-consumer/src/orders/order.service.ts.
use redis_api.Common.{
  ℕ, ◌<◌, ◌≡◌, ◌∙◌, sym, ap, Bool, true, false, some, List, ◌∷◌, ◌++◌, map, arith,
}
use redis_api.Effect.{Outcome, returned}
use redis_api.Orders.{Event, to_order, flush}
use redis_api.Orders.Commit.{In}
use redis_api.Orders.World.{clashes, Systems, World, alone}
use redis_api.Orders.Flush.{Saved, Passed, Committed, Flushed, flush-Flushed}

module _ (y : Systems) (e : Event) (es : List Event) (w : World y)
    (new : clashes (map to_order (e ∷ es)) (y.table.rows w.table) ≡ false) where
  Saved-parts :
      (x : Outcome Bool × World y)
      → Flushed y e es w new x
      → x.0 ≡ returned true
      → Saved y e es w new x.1 × Passed y e es w new x.1 × Committed y e es w new x.1
  Saved-parts (returned true, w') h t = h
  Saved-parts (returned false, w') h t = cc
  Saved-parts (Outcome.thrown x, w') h t = absurd h

  -- A flush of new events that returns true has written their rows, after those that were there, and
  -- the group reads on past every one of them, from what the batch commits.
  pub flush-Saved :
      (alone y (flush (e ∷ es)) w).0 ≡ returned true
      → Saved y e es w new (alone y (flush (e ∷ es)) w).1
        × Passed y e es w new (alone y (flush (e ∷ es)) w).1
        × Committed y e es w new (alone y (flush (e ∷ es)) w).1
  flush-Saved t = Saved-parts (alone y (flush (e ∷ es)) w) (flush-Flushed y e es w new) t

  -- Once a flush of new events returns true, the group reads on behind every event, such as one that
  -- was given up before, that stands below an event of the batch in the same partition; and the rows
  -- that were added are those of the batch alone.
  pub dead_letter_passed :
      (lost later : Event)
      → In later (e ∷ es)
      → later.partition ≡ lost.partition
      → lost.offset < later.offset
      → (alone y (flush (e ∷ es)) w).0 ≡ returned true
      → ((m : ℕ) × (y.group.position lost.partition (alone y (flush (e ∷ es)) w).1.group ≡ some m)
          × (lost.offset < m))
        × (y.table.rows (alone y (flush (e ∷ es)) w).1.table
            ≡ y.table.rows w.table ++ map to_order (e ∷ es))
  dead_letter_passed lost later i same below t =
      let (saved, passed, committed) = flush-Saved t in
      let (m, set, above) = passed later i in
      (
        (
          m,
          ap (λ p. y.group.position p (alone y (flush (e ∷ es)) w).1.group) (sym same) ∙ set,
          omega (arith, below, above),
        ),
        saved,
      )
