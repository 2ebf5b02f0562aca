-- ===== src/Orders/Consumer.antt =====
-- OrderConsumer of order-consumer/src/orders/order.consumer.ts over the events of its topic, one
-- after the other as Kafka delivers them: each handler is awaited, the flush in it included.
pub mod Calm
pub mod Restart
pub mod Crash
mod Tests
use redis_api.Common.{
  All, ◌+◌, ◌<◌, ◌≡◌, ◌∙◌, refl, sym, ap, inl, inr, Bool, true, false, Option, none, some, List, [],
  ◌∷◌, ◌++◌, append_assoc, append-nil, map, length, arith,
}
use redis_api.Effect.{Outcome, returned, thrown}
use redis_api.Orders.{
  Event, Order, to_order, Buffer, batch_size, create_from_event, end_flush, flush,
}
use redis_api.Orders.World.{clashes, Systems, World, alone}
use redis_api.Orders.Clashes.{clashes-append, clashes-left, clashes-right}
use redis_api.Orders.Service.{batches}
use redis_api.Orders.Flush.{Flushed, flush-Flushed}

module _ (y : Systems) where
  -- The consumer between two events.
  pub record Consumer : Type 0 where
    pub state : Buffer
    pub world : World y

  -- What is left of `createFromEvent` after its first await.
  abbrev pub flushed : List Event → Buffer → Outcome Bool × World y → Consumer
  flushed batch s (o, w) = record { state = end_flush batch s; world = w }

  abbrev pub finish : Buffer × Option (List Event) → World y → Consumer
  finish (s, none) w = record { state = s; world = w }
  finish (s, some batch) w = flushed batch s (alone y (flush batch) w)

  -- `handleItemUsed`
  unfoldable pub handle_item_used : Event → Consumer → Consumer
  handle_item_used e c = finish (create_from_event e c.state) c.world

  unfoldable pub consume : List Event → Consumer → Consumer
  consume [] c = c
  consume (e ∷ es) c = consume es (handle_item_used e c)

-- The events of the batches whose rows were added.
abbrev pub stored : List (List Event × Bool) → List Event
stored [] = []
stored ((b, true) ∷ bs) = b ++ stored bs
stored ((b, false) ∷ bs) = stored bs

pub map-append : (xs ys : List Event) → map to_order (xs ++ ys) ≡ map to_order xs ++ map to_order ys
map-append [] ys = refl
map-append (x ∷ xs) ys = ap (λ l. to_order x ∷ l) (map-append xs ys)

module _ (y : Systems) where
  abbrev pub rows_of : World y → List Order
  rows_of w = y.table.rows w.table

  -- What became of the events `given`, from the world `w` on: the batches in order, each with whether
  -- its rows were added, and the rest in the buffer.
  pub record Consumed (given : List Event) (w : World y) (c : Consumer y) : Type 0 where
    pub ended : List (List Event × Bool)
    pub in_order : given ≡ batches ended ++ c.state.buffer
    pub whole : All (λ (b : List Event × Bool). length b.0 ≡ batch_size) ended
    pub rows : rows_of c.world ≡ rows_of w ++ map to_order (stored ended)
    pub few : length c.state.buffer < batch_size
    pub idle : c.state.flushing ≡ false

  -- The consumer with these events in its buffer, and no flush on its way.
  abbrev pub waiting : List Event → World y → Consumer y
  waiting b w = record { state = record { buffer = b; flushing = false }; world = w }

  abbrev pub New : List Event → World y → Type 0
  New es w = clashes (map to_order es) (rows_of w) ≡ false

  -- A batch whose rows were added, and one whose rows were not.
  with_stored :
      (batch es : List Event) (w w' : World y) (c : Consumer y)
      → length batch ≡ batch_size
      → rows_of w' ≡ rows_of w ++ map to_order batch
      → Consumed es w' c
      → Consumed (batch ++ es) w c
  with_stored batch es w w' c three saved h = record {
    ended = (batch, true) ∷ h.ended;
    whole = (three, h.whole);
    in_order =
        ap (λ l. batch ++ l) h.in_order ∙ sym (append_assoc batch (batches h.ended) c.state.buffer);
    rows =
        h.rows
        ∙ ap (λ l. l ++ map to_order (stored h.ended)) saved
        ∙ append_assoc (rows_of w) (map to_order batch) (map to_order (stored h.ended))
        ∙ ap (λ l. rows_of w ++ l) (sym (map-append batch (stored h.ended)));
    few = h.few;
    idle = h.idle;
  }

  with_lost :
      (batch es : List Event) (w w' : World y) (c : Consumer y)
      → length batch ≡ batch_size
      → rows_of w' ≡ rows_of w
      → Consumed es w' c
      → Consumed (batch ++ es) w c
  with_lost batch es w w' c three same h = record {
    ended = (batch, false) ∷ h.ended;
    whole = (three, h.whole);
    in_order =
        ap (λ l. batch ++ l) h.in_order ∙ sym (append_assoc batch (batches h.ended) c.state.buffer);
    rows = h.rows ∙ ap (λ l. l ++ map to_order (stored h.ended)) same;
    few = h.few;
    idle = h.idle;
  }

  abbrev Onward : List Event → Type 0
  Onward es = (w : World y) → New es w → Consumed es w (consume y es (waiting [] w))

  -- On from a flush of three new events.
  after_flush :
      (a b e : Event) (es : List Event) (w : World y) (new : New (a ∷ b ∷ e ∷ []) w)
      → New (a ∷ b ∷ e ∷ es) w
      → Onward es
      → (x : Outcome Bool × World y) → Flushed y a (b ∷ e ∷ []) w new x
      → Consumed (a ∷ b ∷ e ∷ es) w (
          consume y es
            (flushed y (a ∷ b ∷ e ∷ []) (record { buffer = a ∷ b ∷ e ∷ []; flushing = true }) x))
  after_flush a b e es w new all onward (returned true, w') (saved, passed, committed) =
      with_stored (a ∷ b ∷ e ∷ []) es w w' _ (omega arith) saved (onward w' (added w' saved))
    where
      added : (w' : World y) → rows_of w' ≡ rows_of w ++ map to_order (a ∷ b ∷ e ∷ []) → New es w'
      added w' s =
          ap (clashes (map to_order es)) s
          ∙ clashes-append (map to_order (a ∷ b ∷ e ∷ [])) (map to_order es) (rows_of w) all
  after_flush a b e es w new all onward (returned false, w') (inl saved) =
      with_stored (a ∷ b ∷ e ∷ []) es w w' _ (omega arith) saved (
        onward w' (
          ap (clashes (map to_order es)) saved
          ∙ clashes-append (map to_order (a ∷ b ∷ e ∷ [])) (map to_order es) (rows_of w) all))
  after_flush a b e es w new all onward (returned false, w') (inr (same, group)) =
      with_lost (a ∷ b ∷ e ∷ []) es w w' _ (omega arith) same (
        onward w' (
          ap (clashes (map to_order es)) same
          ∙ clashes-right (map to_order (a ∷ b ∷ e ∷ [])) (map to_order es) (rows_of w) all))
  after_flush a b e es w new all onward (thrown x, w') h = absurd h

  consume-Consumed :
      (es b : List Event) (w : World y)
      → length b < batch_size
      → New (b ++ es) w
      → Consumed (b ++ es) w (consume y es (waiting b w))
  unfolding consume handle_item_used create_from_event
  consume-Consumed [] b w few new = record {
    ended = [];
    whole = tt;
    in_order = append-nil b;
    rows = sym (append-nil (rows_of w));
    few = few;
    idle = refl;
  }
  consume-Consumed (e ∷ es) [] w few new = consume-Consumed es (e ∷ []) w (omega arith) new
  consume-Consumed (e ∷ es) (a ∷ []) w few new =
      consume-Consumed es (a ∷ e ∷ []) w (omega arith) new
  consume-Consumed (e ∷ es) (a ∷ b ∷ []) w few new =
      let first = clashes-left (map to_order (a ∷ b ∷ e ∷ [])) (map to_order es) (rows_of w) new in
      after_flush a b e es w first new (λ w' new'. consume-Consumed es [] w' (omega arith) new')
        (alone y (flush (a ∷ b ∷ e ∷ [])) w) (flush-Flushed y a (b ∷ e ∷ []) w first)
  consume-Consumed (e ∷ es) (a ∷ b ∷ c ∷ bs) w few new = absurd (omega (arith, few))

  -- The consumer of a topic whose events are new to the table, under any failures of its calls: the
  -- events make up, in their order, batches of three and a buffer of fewer than three; the rows that were added
  -- are those of whole batches, in their order and each once; and no flush is left on its way.
  pub consume_in_order :
      (es : List Event) (w : World y)
      → clashes (map to_order es) (rows_of w) ≡ false
      → Consumed es w (consume y es (waiting [] w))
  consume_in_order es w new = consume-Consumed es [] w (omega arith) new
