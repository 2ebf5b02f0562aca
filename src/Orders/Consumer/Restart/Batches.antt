-- ===== src/Orders/Consumer/Restart/Batches.antt =====
-- The progress of order-consumer/src/orders on a partition over its next batch, whether it is new or was
-- saved before.
use redis_api.Common.{
  ℕ, ◌≡◌, ◌∙◌, refl, sym, ap, inl, inr, true, false, List, [], ◌∷◌, ◌++◌, append_assoc, map,
}
use redis_api.Effect.{returned}
use redis_api.Orders.{Event, to_order, flush}
use redis_api.Orders.Stop.{stop}
use redis_api.Orders.World.{clashes, Systems, World, alone}
use redis_api.Orders.Clashes.{clashes-append, clashes-left}
use redis_api.Orders.Flush.Stops.{Whole, flush-Whole}
use redis_api.Orders.Replay.{flush-stale}
use redis_api.Orders.Replay.Stops.{flush-Untouched}
use redis_api.Orders.DeadLetter.{flush-Saved}
use redis_api.Orders.Consumer.{rows_of, map-append}
use redis_api.Orders.Consumer.Restart.Progress.{
  State, skipped, behind-State, saved-State, committed-State, unchanged-State, stale,
}

module _ (y : Systems) (p : ℕ) (log : List Event) (w0 : World y)
    (new : clashes (map to_order log) (rows_of y w0) ≡ false) where
  abbrev pub Progress : List Event → List Event → List Event → List Event → World y → Type 0
  Progress = State y p log w0

  -- Between two consumers.
  pub record At (w : World y) : Type 0 where
    pub past : List Event
    pub pend : List Event
    pub rest : List Event
    pub state : Progress past pend [] rest w

  -- With an empty buffer, and the events `todo` to come.
  pub record Bound (todo : List Event) (w : World y) : Type 0 where
    pub past : List Event
    pub pend : List Event
    pub ahead : List Event
    pub rest : List Event
    pub todo_is : ahead ++ rest ≡ todo
    pub state : Progress past pend ahead rest w

  pub rest-New :
      (past pend rest : List Event) (w : World y)
      → Progress past pend [] rest w
      → clashes (map to_order rest) (rows_of y w) ≡ false
  rest-New past pend rest w s =
      ap (clashes (map to_order rest)) s.rows
      ∙ clashes-append (map to_order (past ++ (pend ++ []))) (map to_order rest) (rows_of y w0) (
          ap (λ l. clashes l (rows_of y w0))
            (sym (map-append (past ++ (pend ++ [])) rest)
              ∙ ap (map to_order) (
                  append_assoc past (pend ++ []) rest
                  ∙ ap (λ l. past ++ l) (append_assoc pend [] rest)
                  ∙ sym s.split))
          ∙ new)

  -- The next batch, flushed or stopped.
  abbrev pub Advance : List Event → World y → Type 0
  Advance (a ∷ b ∷ e ∷ t) w =
      ((clashes (map to_order (a ∷ b ∷ e ∷ [])) (rows_of y w) ≡ false
          → (alone y (flush (a ∷ b ∷ e ∷ [])) w).0 ≡ returned true)
        → Bound t (alone y (flush (a ∷ b ∷ e ∷ [])) w).1)
      × ((n : ℕ) → At (stop y n (flush (a ∷ b ∷ e ∷ [])) w))
  Advance _ w = Unit

  stopped :
      (past pend t : List Event) (w w1 : World y) (a b e : Event)
      (first : clashes (map to_order (a ∷ b ∷ e ∷ [])) (rows_of y w) ≡ false)
      → Progress past pend [] (a ∷ b ∷ e ∷ t) w
      → Whole y a (b ∷ e ∷ []) w first w1
      → At w1
  stopped past pend t w w1 a b e first s (inl (group, rows)) = record {
    past = past;
    pend = pend;
    rest = a ∷ b ∷ e ∷ t;
    state = unchanged-State y p log w0 past pend [] (a ∷ b ∷ e ∷ t) w w1 rows group s;
  }
  stopped past pend t w w1 a b e first s (inr (saved, inl group)) = record {
    past = past;
    pend = pend ++ (a ∷ b ∷ e ∷ []);
    rest = t;
    state = saved-State y p log w0 past pend t w w1 a b e s saved group;
  }
  stopped past pend t w w1 a b e first s (inr (saved, inr committed)) = record {
    past = past ++ (pend ++ (a ∷ b ∷ e ∷ []));
    pend = [];
    rest = t;
    state = committed-State y p log w0 past pend t w w1 a b e s saved committed;
  }

  pub advance :
      (past pend ahead rest : List Event) (w : World y)
      → Progress past pend ahead rest w
      → Advance (ahead ++ rest) w
  advance past pend [] [] w s = tt
  advance past pend [] (a ∷ []) w s = tt
  advance past pend [] (a ∷ b ∷ []) w s = tt
  advance past pend [] (a ∷ b ∷ e ∷ t) w s =
      let first =
        clashes-left (map to_order (a ∷ b ∷ e ∷ [])) (map to_order t) (rows_of y w)
          (rest-New past pend (a ∷ b ∷ e ∷ t) w s) in
      (
        λ kept.
            let (saved, passed, committed) = flush-Saved y a (b ∷ e ∷ []) w first (kept first) in
            record {
              past = past ++ (pend ++ (a ∷ b ∷ e ∷ []));
              pend = [];
              ahead = [];
              rest = t;
              todo_is = refl;
              state = committed-State y p log w0 past pend t w _ a b e s saved committed;
            },
        λ n. stopped past pend t w _ a b e first s (flush-Whole y a (b ∷ e ∷ []) w first n),
      )
  advance past pend (a ∷ []) rest w s = absurd s.whole.1
  advance past pend (a ∷ b ∷ []) rest w s = absurd s.whole.1
  advance past pend (a ∷ b ∷ e ∷ ahead) rest w s =
      let known = stale y p log w0 past pend ahead rest w a b e s in
      let batch : List Event = a ∷ b ∷ e ∷ [] in
      (
        λ kept.
            let (refused, (table, group)) = flush-stale y batch w known in
            record {
              past = past;
              pend = pend ++ batch;
              ahead = ahead;
              rest = rest;
              todo_is = refl;
              state = skipped y p log w0 past pend rest w _ a b e ahead table group s;
            },
        λ n.
            let (table, group) = flush-Untouched y batch w known n in
            record {
              past = past;
              pend = pend ++ (a ∷ b ∷ e ∷ ahead);
              rest = rest;
              state =
                  unchanged-State y p log w0 past (pend ++ (a ∷ b ∷ e ∷ ahead)) [] rest w _
                    (ap y.table.rows table) group
                    (behind-State y p log w0 past pend (a ∷ b ∷ e ∷ ahead) rest w s);
            },
      )
