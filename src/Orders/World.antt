-- ===== src/Orders/World.antt =====
-- The table of orders and the offsets of the consumer group, neither code of the repository, and
-- how calls to them fail.
use redis_api.Common.{
  ℕ, ◌≡◌, ◌++◌, ◌&&◌, ◌||◌, Bool, true, false, Option, none, some, List, [], ◌∷◌, Answer, answer,
  error, ◌==◌,
}
use redis_api.Effect.{Outcome, run}
use redis_api.Orders.{Order, Entry, Call, insert, update, commit_offsets, sleep, Reply, Method}
use redis_api.Orders.Commit.{offset_for}

-- `@Unique(['kafkaPartition', 'kafkaOffset'])` of order.entity.ts
abbrev pub same_key : Order → Order → Bool
same_key a b = a.kafka_partition == b.kafka_partition && a.kafka_offset == b.kafka_offset

unfoldable pub has_key : Order → List Order → Bool
has_key o [] = false
has_key o (r ∷ rs) = same_key o r || has_key o rs

-- The new rows break the constraint, against the rows that are there or among themselves.
unfoldable pub clashes : List Order → List Order → Bool
unfolding has_key
clashes [] rows = false
clashes (o ∷ os) rows = has_key o rows || has_key o os || clashes os rows

-- A save runs in one transaction: it writes all rows, or fails and writes none.
pub record Table : Type 1 where
  pub State : Type 0
  pub rows : State → List Order
  pub insert_rows : List Order → State → Answer (Unit {0}) × State
  pub update_rows : List Order → State → Answer (Unit {0}) × State
  pub insert-clash :
      (os : List Order) (s : State) → clashes os (rows s) ≡ true → insert_rows os s ≡ (error, s)
  pub insert-new :
      (os : List Order) (s : State)
      → clashes os (rows s) ≡ false
      → ((insert_rows os s).0 ≡ answer tt) × (rows (insert_rows os s).1 ≡ rows s ++ os)
  pub update_lem : (os : List Order) (s : State) → update_rows os s ≡ (answer tt, s)

pub record Group : Type 1 where
  pub State : Type 0
  -- the offset from which a partition is read again after a restart
  pub position : ℕ → State → Option ℕ
  pub commit : List Entry → State → State
  pub position-commit :
      (p : ℕ) (es : List Entry) (s : State)
      → position p (commit es s) ≡ elim (offset_for p es) [ none ↦ position p s | some n ↦ some n ]

pub record Systems : Type 1 where
  pub table : Table
  pub group : Group

-- A call is answered; or it never arrives; or it is carried out, and its answer is lost.
pub data Fault : Type 0 where
  sound unsent unanswered : Fault

module _ (y : Systems) where
  pub record World : Type 0 where
    pub table : y.table.State
    pub group : y.group.State
    pub waited : List ℕ
    pub faults : List Fault

  in_table : World → Answer (Unit {0}) × y.table.State → Answer (Unit {0}) × World
  in_table w (a, s) = (a, record w { table = s })

  unfoldable pub execute : (c : Call) → World → Answer (Unit {0}) × World
  unfolding in_table
  execute (insert os) w = in_table w (y.table.insert_rows os w.table)
  execute (update os) w = in_table w (y.table.update_rows os w.table)
  execute (commit_offsets es) w = (answer tt, record w { group = y.group.commit es w.group })
  execute (sleep ms) w = (answer tt, record w { waited = w.waited ++ ms ∷ [] })

  abbrev pub meet : Fault → Call → World → Answer (Unit {0}) × World
  meet sound c w = execute c w
  meet unsent c w = (error, w)
  meet unanswered c w = (error, (execute c w).1)

  abbrev pub next_fault : List Fault → Fault
  next_fault [] = sound
  next_fault (f ∷ fs) = f

  abbrev pub later_faults : List Fault → List Fault
  later_faults [] = []
  later_faults (f ∷ fs) = fs

  -- A call to Postgres or Kafka meets the next fault of the world; the timer meets none.
  unfoldable pub perform : (c : Call) → World → Answer (Reply c) × World
  unfolding execute
  perform (sleep ms) w = execute (sleep ms) w
  perform c w = meet (next_fault w.faults) c (record w { faults = later_faults w.faults })

  abbrev pub alone : {A : Type 0} → Method A → World → Outcome A × World
  alone = run perform
