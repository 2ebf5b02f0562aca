-- ===== src/Orders/Consumer/Calm.antt =====
-- The consumer of order-consumer/src/orders while none of its calls fails.
use redis_api.Common.{
  ◌<◌, ◌≡◌, ◌∙◌, sym, ap, true, false, List, [], ◌∷◌, ◌++◌, append_assoc, append-nil, map, length,
  answer, arith,
}
use redis_api.Effect.{returned, run-answered, ◌>>=◌}
use redis_api.Orders.{
  commit_step, Event, Order, to_order, commits, batch_size, insert, save_end, commit_end, try_batch,
  next_attempt, flush_loop, create_from_event, flush,
}
use redis_api.Orders.World.{clashes, Systems, World, execute, perform, alone}
use redis_api.Orders.Clashes.{clashes-append, clashes-left}
use redis_api.Orders.Consumer.{Consumer, New, rows_of, waiting, flushed, handle_item_used, consume}

module _ (y : Systems) where
  -- The world after a flush with no failure.
  abbrev pub done_with : List Event → World y → World y
  done_with batch w = record w {
    table = (y.table.insert_rows (map to_order batch) w.table).1;
    group = y.group.commit (commits batch) w.group;
  }

  abbrev pub calm : World y → World y
  calm w = record w { faults = [] }

  pub flush-calm :
      (e : Event) (es : List Event) (w : World y)
      → New y (e ∷ es) w
      → alone y (flush (e ∷ es)) (calm w) ≡ (returned true, calm (done_with (e ∷ es) w))
  unfolding flush flush_loop try_batch save_end commit_step commit_end perform execute
  flush-calm e es w new =
      let batch : List Event = e ∷ es in
      run-answered (perform y) (insert (map to_order batch))
        (λ r. save_end batch 1 false r >>= λ result.
          next_attempt (λ st. flush_loop batch 4 2 st) result)
        (calm w) (record (calm w) { table = (y.table.insert_rows (map to_order batch) w.table).1 })
        (answer tt)
        (ap
          (λ a.
            (a, record (calm w) { table = (y.table.insert_rows (map to_order batch) w.table).1 }))
          ((y.table.insert-new (map to_order batch) w.table new).0))

  -- Rows and buffer together.
  abbrev pub held : Consumer y → List Order
  held c = rows_of y c.world ++ map to_order c.state.buffer

  calm-held :
      (es b : List Event) (w : World y)
      → length b < batch_size
      → New y (b ++ es) w
      → held (consume y es (waiting y b (calm w))) ≡ rows_of y w ++ map to_order (b ++ es)
  unfolding consume handle_item_used create_from_event
  calm-held [] b w few new = ap (λ l. rows_of y w ++ map to_order l) (sym (append-nil b))
  calm-held (e ∷ es) [] w few new = calm-held es (e ∷ []) w (omega arith) new
  calm-held (e ∷ es) (a ∷ []) w few new = calm-held es (a ∷ e ∷ []) w (omega arith) new
  calm-held (e ∷ es) (a ∷ b ∷ []) w few new =
      let batch : List Event = a ∷ b ∷ e ∷ [] in
      let first = clashes-left (map to_order batch) (map to_order es) (rows_of y w) new in
      let saved = (y.table.insert-new (map to_order batch) w.table first).1 in
      let later =
        ap (clashes (map to_order es)) saved
        ∙ clashes-append (map to_order batch) (map to_order es) (rows_of y w) new in
      ap (λ x. held (consume y es (flushed y batch (record { buffer = batch; flushing = true }) x)))
        (flush-calm a (b ∷ e ∷ []) w first)
      ∙ calm-held es [] (done_with batch w) (omega arith) later
      ∙ ap (λ l. l ++ map to_order es) saved
      ∙ append_assoc (rows_of y w) (map to_order batch) (map to_order es)
  calm-held (e ∷ es) (a ∷ b ∷ c ∷ bs) w few new = absurd (omega (arith, few))

  -- The consumer of a topic whose events are new to the table, while no call fails: the rows that
  -- were there, and then the rows of all events in their order, each once, are the rows of the table
  -- and the events that wait in the buffer for their batch.
  pub consume_once :
      (es : List Event) (w : World y)
      → clashes (map to_order es) (rows_of y w) ≡ false
      → held (consume y es (waiting y [] (calm w))) ≡ rows_of y w ++ map to_order es
  consume_once es w new = calm-held es [] w (omega arith) new
