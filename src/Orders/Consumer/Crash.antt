-- ===== src/Orders/Consumer/Crash.antt =====
-- A crash of order-consumer/src/orders between the save of a batch and its commit: Kafka delivers the
-- events of the batch again.
use redis_api.Common.{
  ◌<◌, ◌≡◌, ◌∙◌, sym, ap, false, List, [], ◌∷◌, ◌++◌, append_assoc, append-nil, map, length, arith,
}
use redis_api.Orders.{Event, Order, to_order, batch_size, create_from_event, flush}
use redis_api.Orders.World.{clashes, Systems, World, alone}
use redis_api.Orders.Clashes.{clashes-append, clashes-left}
use redis_api.Orders.Flush.{clashes_self}
use redis_api.Orders.Replay.{flush-stale}
use redis_api.Orders.DeadLetter.{flush-Saved}
use redis_api.Orders.Consumer.{New, rows_of, waiting, handle_item_used, consume}
use redis_api.Orders.Consumer.Calm.{held}
use redis_api.Orders.Consumer.Restart.{NoneLost}

module _ (y : Systems) where
  consume-held :
      (es b : List Event) (w : World y)
      → length b < batch_size
      → New y (b ++ es) w
      → NoneLost y es (waiting y b w)
      → held y (consume y es (waiting y b w)) ≡ rows_of y w ++ map to_order (b ++ es)
  unfolding consume handle_item_used create_from_event
  consume-held [] b w few new kept = ap (λ l. rows_of y w ++ map to_order l) (sym (append-nil b))
  consume-held (e ∷ es) [] w few new kept = consume-held es (e ∷ []) w (omega arith) new kept.1
  consume-held (e ∷ es) (a ∷ []) w few new kept =
      consume-held es (a ∷ e ∷ []) w (omega arith) new kept.1
  consume-held (e ∷ es) (a ∷ b ∷ []) w few new kept =
      let batch : List Event = a ∷ b ∷ e ∷ [] in
      let first = clashes-left (map to_order batch) (map to_order es) (rows_of y w) new in
      let (saved, passed, committed) = flush-Saved y a (b ∷ e ∷ []) w first (kept.0 first) in
      let later =
        ap (clashes (map to_order es)) saved
        ∙ clashes-append (map to_order batch) (map to_order es) (rows_of y w) new in
      consume-held es [] (alone y (flush batch) w).1 (omega arith) later kept.1
      ∙ ap (λ l. l ++ map to_order es) saved
      ∙ append_assoc (rows_of y w) (map to_order batch) (map to_order es)
  consume-held (e ∷ es) (a ∷ b ∷ c ∷ bs) w few new kept = absurd (omega (arith, few))

  -- A new consumer reads a batch whose rows are the last of the table, and then the events `rest`, which
  -- are new to it. Whatever calls fail on the way, as long as no later batch is given up: the rows that
  -- were there, those of the batch among them once, and then those of the events of `rest` in their
  -- order, each once, are the rows of the table and the events that wait in the buffer.
  crash_repeats_nothing :
      (a b e : Event) (rest : List Event) (before : List Order) (w : World y)
      → rows_of y w ≡ before ++ map to_order (a ∷ b ∷ e ∷ [])
      → clashes (map to_order rest) (rows_of y w) ≡ false
      → NoneLost y rest (waiting y [] (alone y (flush (a ∷ b ∷ e ∷ [])) w).1)
      → held y (consume y (a ∷ b ∷ e ∷ rest) (waiting y [] w))
        ≡ before ++ map to_order (a ∷ b ∷ e ∷ rest)
  unfolding consume handle_item_used create_from_event
  crash_repeats_nothing a b e rest before w saved new kept =
      let batch : List Event = a ∷ b ∷ e ∷ [] in
      let stale =
        ap (clashes (map to_order batch)) saved
        ∙ clashes_self (to_order a) (map to_order (b ∷ e ∷ [])) before
            (map to_order (b ∷ e ∷ [])) in
      let (refused, (same, group)) = flush-stale y batch w stale in
      let kept_rows = ap y.table.rows same in
      consume-held rest [] (alone y (flush batch) w).1 (omega arith)
        (ap (clashes (map to_order rest)) kept_rows ∙ new) kept
      ∙ ap (λ l. l ++ map to_order rest) (kept_rows ∙ saved)
      ∙ append_assoc before (map to_order batch) (map to_order rest)
