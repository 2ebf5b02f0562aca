-- ===== src/Orders/Consumer/Restart/Progress.antt =====
-- What one batch does to the progress of order-consumer/src/orders on a partition, whether it is flushed
-- or the process crashes in the flush.
use mathlib.Core.Path.{subst}
use redis_api.Common.{
  ℕ, ◌+◌, ◌<◌, ◌≤◌, ◌≡◌, ◌∙◌, sym, ap, All, All-append, some, true, List, [], ◌∷◌, ◌++◌,
  append_assoc, append-nil, map, length, length-append, arith,
}
use redis_api.Orders.{Event, to_order, commits}
use redis_api.Orders.World.{clashes, Systems, World}
use redis_api.Orders.Flush.{clashes_self}
use redis_api.Orders.Commit.{offset_for}
use redis_api.Orders.Consumer.{rows_of, map-append}
use redis_api.Orders.Consumer.Restart.{IsRun, three_on, commits-run}

-- A number of whole batches.
abbrev pub IsWhole : List Event → Type 0
IsWhole [] = Unit
IsWhole (a ∷ []) = ⊥
IsWhole (a ∷ b ∷ []) = ⊥
IsWhole (a ∷ b ∷ e ∷ es) = IsWhole es

abbrev Below : ℕ → List Event → Type 0
Below n es = All (λ (e : Event). e.offset < n) es

Below-le : (n m : ℕ) (es : List Event) → n ≤ m → Below n es → Below m es
Below-le n m [] le h = tt
Below-le n m (e ∷ es) le h = (omega (arith, le, h.0), Below-le n m es le h.1)

run-Below : (p k : ℕ) (xs ys : List Event) → IsRun p k (xs ++ ys) → Below (k + length xs) xs
run-Below p k [] ys h = tt
run-Below p k (x ∷ xs) ys h = (
  omega (arith, h.1),
  Below-le (k + 1 + length xs) _ xs (omega arith) (run-Below p (k + 1) xs ys h.2),
)

run-later : (p k : ℕ) (xs ys : List Event) → IsRun p k (xs ++ ys) → IsRun p (k + length xs) ys
run-later p k [] ys h = let same : k + 0 ≡ k = omega arith in rw same h
run-later p k (x ∷ xs) ys h =
    let same : k + 1 + length xs ≡ k + length (x ∷ xs) = omega arith in
    subst (λ n. IsRun p n ys) same (run-later p (k + 1) xs ys h.2)

pub IsWhole-append : (xs ys : List Event) → IsWhole xs → IsWhole ys → IsWhole (xs ++ ys)
IsWhole-append [] ys h g = g
IsWhole-append (x ∷ []) ys h g = absurd h
IsWhole-append (x ∷ z ∷ []) ys h g = absurd h
IsWhole-append (x ∷ z ∷ u ∷ xs) ys h g = IsWhole-append xs ys h g

module _ (y : Systems) (p : ℕ) (log : List Event) (w0 : World y) where
  -- The rows of `past`, `pend` and `ahead` were added, in this order, and those of `rest` were not; the
  -- group reads on from the first event behind `past`. A consumer in this world has handled `pend` again.
  pub record State (past pend ahead rest : List Event) (w : World y) : Type 0 where
    pub next : ℕ
    pub split : log ≡ past ++ (pend ++ (ahead ++ rest))
    pub rows : rows_of y w ≡ rows_of y w0 ++ map to_order (past ++ (pend ++ ahead))
    pub position : y.group.position p w.group ≡ some next
    pub run : IsRun p next (pend ++ (ahead ++ rest))
    pub behind : Below next past
    pub whole : IsWhole pend × IsWhole ahead

  pub unchanged-State :
      (past pend ahead rest : List Event) (w w1 : World y)
      → rows_of y w1 ≡ rows_of y w
      → w1.group ≡ w.group
      → State past pend ahead rest w
      → State past pend ahead rest w1
  unchanged-State past pend ahead rest w w1 rows group s = record {
    next = s.next;
    split = s.split;
    rows = rows ∙ s.rows;
    position = ap (y.group.position p) group ∙ s.position;
    run = s.run;
    behind = s.behind;
    whole = s.whole;
  }

  -- What was not handled again yet will be read again by the next consumer.
  pub behind-State :
      (past pend ahead rest : List Event) (w : World y)
      → State past pend ahead rest w
      → State past (pend ++ ahead) [] rest w
  behind-State past pend ahead rest w s =
      let on = append_assoc pend ahead rest in
      record {
        next = s.next;
        split = s.split ∙ ap (λ l. past ++ l) (sym on);
        rows =
            s.rows
            ∙ ap (λ l. rows_of y w0 ++ map to_order (past ++ l)) (sym (append-nil (pend ++ ahead)));
        position = s.position;
        run = subst (IsRun p s.next) (sym on) s.run;
        behind = s.behind;
        whole = (IsWhole-append pend ahead s.whole.0 s.whole.1, tt);
      }

  module _ (past pend rest : List Event) (w w1 : World y) (a b e : Event) where
    abbrev three : List Event
    three = a ∷ b ∷ e ∷ []

    -- A batch that was handled again.
    pub skipped :
        (ahead : List Event)
        → w1.table ≡ w.table
        → w1.group ≡ w.group
        → State past pend (a ∷ b ∷ e ∷ ahead) rest w
        → State past (pend ++ three) ahead rest w1
    skipped ahead table group s =
        let on = append_assoc pend three (ahead ++ rest) in
        record {
          next = s.next;
          split = s.split ∙ ap (λ l. past ++ l) (sym on);
          rows =
              ap y.table.rows table
              ∙ s.rows
              ∙ ap (λ l. rows_of y w0 ++ map to_order (past ++ l))
                  (sym (append_assoc pend three ahead));
          position = ap (y.group.position p) group ∙ s.position;
          run = subst (IsRun p s.next) (sym on) s.run;
          behind = s.behind;
          whole = (IsWhole-append pend three s.whole.0 tt, s.whole.1);
        }

    grown :
        State past pend [] (a ∷ b ∷ e ∷ rest) w
        → rows_of y w1 ≡ rows_of y w ++ map to_order three
        → rows_of y w1 ≡ rows_of y w0 ++ map to_order (past ++ (pend ++ three))
    grown s saved =
        saved
        ∙ ap (λ l. l ++ map to_order three) s.rows
        ∙ append_assoc (rows_of y w0) (map to_order (past ++ (pend ++ []))) (map to_order three)
        ∙ ap (λ l. rows_of y w0 ++ l)
            (sym (map-append (past ++ (pend ++ [])) three)
              ∙ ap (λ l. map to_order ((past ++ l) ++ three)) (append-nil pend)
              ∙ ap (map to_order) (append_assoc past pend three))

    -- A new batch whose rows were added, and which was not committed.
    pub saved-State :
        State past pend [] (a ∷ b ∷ e ∷ rest) w
        → rows_of y w1 ≡ rows_of y w ++ map to_order three
        → w1.group ≡ w.group
        → State past (pend ++ three) [] rest w1
    saved-State s saved group =
        let on = append_assoc pend three rest in
        record {
          next = s.next;
          split = s.split ∙ ap (λ l. past ++ l) (sym on);
          rows =
              grown s saved
              ∙ ap (λ l. rows_of y w0 ++ map to_order (past ++ l))
                  (sym (append-nil (pend ++ three)));
          position = ap (y.group.position p) group ∙ s.position;
          run = subst (IsRun p s.next) (sym on) s.run;
          behind = s.behind;
          whole = (IsWhole-append pend three s.whole.0 tt, tt);
        }

    -- A new batch whose rows were added, and which was committed.
    pub committed-State :
        State past pend [] (a ∷ b ∷ e ∷ rest) w
        → rows_of y w1 ≡ rows_of y w ++ map to_order three
        → ((q n : ℕ) → offset_for q (commits three) ≡ some n → y.group.position q w1.group ≡ some n)
        → State (past ++ (pend ++ three)) [] [] rest w1
    committed-State s saved committed =
        let on = append_assoc pend three rest in
        let k = s.next + length pend in
        let run = run-later p s.next pend (a ∷ b ∷ e ∷ rest) s.run in
        let end : s.next + length (pend ++ three) ≡ k + 3 =
          omega (arith, length-append pend three) in
        record {
          next = k + 3;
          split =
              s.split ∙ ap (λ l. past ++ l) (sym on) ∙ sym (append_assoc past (pend ++ three) rest);
          rows =
              grown s saved
              ∙ ap (λ l. rows_of y w0 ++ map to_order l)
                  (sym (append-nil (past ++ (pend ++ three))));
          position = committed p (k + 3) (commits-run p k a b e rest run);
          run = three_on p k rest run.2.2.2;
          behind =
              All-append (λ (e : Event). e.offset < k + 3) past (pend ++ three)
                (Below-le s.next (k + 3) past (omega arith) s.behind)
                (subst (λ n. Below n (pend ++ three)) end
                  (run-Below p s.next (pend ++ three) rest
                    (subst (IsRun p s.next) (sym on) s.run)));
          whole = (tt, tt);
        }

  -- The rows of a batch that was handled before are in the table.
  pub stale :
      (past pend ahead rest : List Event) (w : World y) (a b e : Event)
      → State past pend (a ∷ b ∷ e ∷ ahead) rest w
      → clashes (map to_order (a ∷ b ∷ e ∷ [])) (rows_of y w) ≡ true
  stale past pend ahead rest w a b e s =
      ap (clashes (map to_order (a ∷ b ∷ e ∷ []))) (
        s.rows
        ∙ ap (λ l. rows_of y w0 ++ map to_order l)
            (sym (append_assoc past pend (a ∷ b ∷ e ∷ ahead)))
        ∙ ap (λ l. rows_of y w0 ++ l) (map-append (past ++ pend) (a ∷ b ∷ e ∷ ahead))
        ∙ sym (
            append_assoc (rows_of y w0) (map to_order (past ++ pend))
              (map to_order (a ∷ b ∷ e ∷ ahead))))
      ∙ clashes_self (to_order a) (map to_order (b ∷ e ∷ []))
          (rows_of y w0 ++ map to_order (past ++ pend)) (map to_order (b ∷ e ∷ ahead))
