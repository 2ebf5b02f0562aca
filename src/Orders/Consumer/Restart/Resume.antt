-- ===== src/Orders/Consumer/Restart/Resume.antt =====
-- What crashes of order-consumer/src/orders leave of the events of one partition.
use mathlib.Core.Path.{subst}
use redis_api.Common.{
  ℕ, zero, suc, ◌<◌, ◌≡◌, ◌∙◌, refl, sym, ap, some, false, List, [], ◌∷◌, ◌++◌, append_assoc,
  append-nil, take, drop, map, length, arith,
}
use redis_api.Orders.{Event, to_order, create_from_event, flush}
use redis_api.Orders.World.{clashes, Systems, World, alone}
use redis_api.Orders.Consumer.{rows_of, waiting, handle_item_used, consume, map-append}
use redis_api.Orders.Consumer.Calm.{held}
use redis_api.Orders.Consumer.Restart.{
  IsRun, unread, NoneLost, to_read, crash, life, lives, NoneLostInLives, unread-below, unread-run,
}
use redis_api.Orders.Consumer.Restart.Progress.{State, behind-State}
use redis_api.Orders.Consumer.Restart.Batches.{At, Bound, Advance, advance}

module _ (y : Systems) (p : ℕ) (log : List Event) (w0 : World y)
    (new : clashes (map to_order log) (rows_of y w0) ≡ false) where
  abbrev Here : World y → Type 0
  Here = At y p log w0 new

  abbrev Before : List Event → World y → Type 0
  Before = Bound y p log w0 new

  go_on : (todo : List Event) (w : World y) → Before todo w → Advance y p log w0 new todo w
  go_on todo w b =
      subst (λ l. Advance y p log w0 new l w) b.todo_is
        (advance y p log w0 new b.past b.pend b.ahead b.rest w b.state)

  Before-Here : (todo : List Event) (w : World y) → Before todo w → Here w
  Before-Here todo w b = record {
    past = b.past;
    pend = b.pend ++ b.ahead;
    rest = b.rest;
    state = behind-State y p log w0 b.past b.pend b.ahead b.rest w b.state;
  }

  life-Here :
      (j n : ℕ) (todo : List Event) (w : World y)
      → Before todo w
      → NoneLost y (take j todo) (waiting y [] w)
      → Here (crash y n (drop j todo) (consume y (take j todo) (waiting y [] w)))
  unfolding consume handle_item_used create_from_event
  life-Here zero n [] w b kept = Before-Here [] w b
  life-Here zero n (a ∷ t) w b kept = Before-Here (a ∷ t) w b
  life-Here (suc j) n [] w b kept = Before-Here [] w b
  life-Here (suc zero) n (a ∷ []) w b kept = Before-Here (a ∷ []) w b
  life-Here (suc zero) n (a ∷ x ∷ t) w b kept = Before-Here (a ∷ x ∷ t) w b
  life-Here (suc (suc j)) n (a ∷ []) w b kept = Before-Here (a ∷ []) w b
  life-Here (suc (suc zero)) n (a ∷ x ∷ []) w b kept = Before-Here (a ∷ x ∷ []) w b
  life-Here (suc (suc zero)) n (a ∷ x ∷ e ∷ t) w b kept = (go_on (a ∷ x ∷ e ∷ t) w b).1 n
  life-Here (suc (suc (suc j))) n (a ∷ x ∷ []) w b kept = Before-Here (a ∷ x ∷ []) w b
  life-Here (suc (suc (suc j))) n (a ∷ x ∷ e ∷ t) w b kept =
      life-Here j n t (alone y (flush (a ∷ x ∷ e ∷ [])) w).1
        ((go_on (a ∷ x ∷ e ∷ t) w b).0 kept.1.1.0) kept.1.1.1

  -- The group reads the events that are not behind it.
  reads : (w : World y) (a : Here w) → to_read y p log w ≡ a.pend ++ a.rest
  reads w a = rw (a.state.position) (
      ap (unread a.state.next) a.state.split
      ∙ unread-below a.state.next a.past (a.pend ++ a.rest) a.state.behind
      ∙ unread-run p a.state.next a.state.next (a.pend ++ a.rest) a.state.run (omega arith))

  begins : (w : World y) → Here w → Before (to_read y p log w) w
  begins w a = record {
    past = a.past;
    pend = [];
    ahead = a.pend;
    rest = a.rest;
    todo_is = sym (reads w a);
    state = record {
      next = a.state.next;
      split = a.state.split;
      rows =
          a.state.rows ∙ ap (λ l. rows_of y w0 ++ map to_order (a.past ++ l)) (append-nil a.pend);
      position = a.state.position;
      run = a.state.run;
      behind = a.state.behind;
      whole = (tt, a.state.whole.0);
    };
  }

  lives-Here :
      (ls : List (ℕ × ℕ)) (w : World y)
      → Here w
      → NoneLostInLives y p log ls w
      → Here (lives y p log ls w)
  lives-Here [] w a kept = a
  lives-Here ((j, n) ∷ ls) w a kept =
      lives-Here ls (life y p log (j, n) w)
        (life-Here j n (to_read y p log w) w (begins w a) kept.0) kept.1

  -- Fewer than three events are no batch.
  few-held :
      (past pend ahead rest : List Event) (w : World y)
      → State y p log w0 past pend ahead rest w
      → length (ahead ++ rest) < 3
      → rows_of y w ++ map to_order (ahead ++ rest) ≡ rows_of y w0 ++ map to_order log
  few-held past pend [] rest w s few =
      ap (λ l. l ++ map to_order rest) s.rows
      ∙ append_assoc (rows_of y w0) (map to_order (past ++ (pend ++ []))) (map to_order rest)
      ∙ ap (λ l. rows_of y w0 ++ l)
          (sym (map-append (past ++ (pend ++ [])) rest)
            ∙ ap (map to_order) (
                append_assoc past (pend ++ []) rest
                ∙ ap (λ l. past ++ l) (append_assoc pend [] rest)
                ∙ sym s.split))
  few-held past pend (a ∷ []) rest w s few = absurd s.whole.1
  few-held past pend (a ∷ b ∷ []) rest w s few = absurd s.whole.1
  few-held past pend (a ∷ b ∷ e ∷ ahead) rest w s few = absurd (omega (arith, few))

  short-held :
      (todo : List Event) (w : World y)
      → Before todo w
      → length todo < 3
      → rows_of y w ++ map to_order todo ≡ rows_of y w0 ++ map to_order log
  short-held todo w b few =
      subst (λ l. length l < 3 → rows_of y w ++ map to_order l ≡ rows_of y w0 ++ map to_order log)
        b.todo_is (few-held b.past b.pend b.ahead b.rest w b.state) few

  last-held :
      (todo : List Event) (w : World y)
      → Before todo w
      → NoneLost y todo (waiting y [] w)
      → held y (consume y todo (waiting y [] w)) ≡ rows_of y w0 ++ map to_order log
  unfolding consume handle_item_used create_from_event
  last-held [] w b kept = short-held [] w b (omega arith)
  last-held (a ∷ []) w b kept = short-held (a ∷ []) w b (omega arith)
  last-held (a ∷ x ∷ []) w b kept = short-held (a ∷ x ∷ []) w b (omega arith)
  last-held (a ∷ x ∷ e ∷ t) w b kept =
      last-held t (alone y (flush (a ∷ x ∷ e ∷ [])) w).1 ((go_on (a ∷ x ∷ e ∷ t) w b).0 kept.1.1.0)
        kept.1.1.1

-- The events `log` of one partition are new to the table and follow each other from the offset of the
-- group on. Consumers read them one after the other, each until it crashes between two events or at any
-- call of a flush, and the last one to the end. Whatever calls fail on the way, as long as no flush gives
-- up a batch that is new to the table: the rows that were there at first, and then those of all events in
-- their order, each once, are the rows of the table and the events that wait in the buffer.
pub crashes_lose_nothing :
    (y : Systems) (p k : ℕ) (log : List Event) (ls : List (ℕ × ℕ)) (w : World y)
    → IsRun p k log
    → y.group.position p w.group ≡ some k
    → clashes (map to_order log) (rows_of y w) ≡ false
    → NoneLostInLives y p log ls w
    → NoneLost y (to_read y p log (lives y p log ls w)) (waiting y [] (lives y p log ls w))
    → held y (consume y (to_read y p log (lives y p log ls w)) (waiting y [] (lives y p log ls w)))
      ≡ rows_of y w ++ map to_order log
crashes_lose_nothing y p k log ls w run at new kept last =
    let start : At y p log w new w = record {
      past = [];
      pend = [];
      rest = log;
      state = record {
        next = k;
        split = refl;
        rows = sym (append-nil (rows_of y w));
        position = at;
        run = run;
        behind = tt;
        whole = (tt, tt);
      };
    } in
    let v = lives y p log ls w in
    last-held y p log w new (to_read y p log v) v
      (begins y p log w new v (lives-Here y p log w new ls w start kept)) last
