-- ===== src/Orders/Consumer/Restart.antt =====
-- Crashes and restarts of order-consumer/src/orders: Kafka reads on from what commitOffsets has
-- committed, and each new consumer begins with an empty buffer.
pub mod Progress
pub mod Batches
pub mod Resume
use redis_api.Common.{
  ℕ, ◌+◌, ◌<◌, ◌≤◌, ◌≡◌, ◌∙◌, refl, ap, All, Option, none, some, true, leb, List, [], ◌∷◌, ◌++◌,
  take, drop, map, false, arith, if◌then◌else◌, ==_iff,
}
use redis_api.Effect.{returned}
use redis_api.Orders.{to_order, Event, Buffer, create_from_event, flush, commits}
use redis_api.Orders.Stop.{stop}
use redis_api.Orders.World.{clashes, Systems, World, alone}
use redis_api.Orders.Commit.{offset_for, highest, commits-highest}
use redis_api.Orders.Consumer.{rows_of, Consumer, waiting, handle_item_used, consume}

-- The events of the partition `p`, one after the other from the offset `k` on.
abbrev pub IsRun : ℕ → ℕ → List Event → Type 0
IsRun p k [] = Unit
IsRun p k (e ∷ es) = (e.partition ≡ p) × (e.offset ≡ k) × IsRun p (k + 1) es

-- What a group reads of `log` that reads on from the offset `n`.
unfoldable pub unread : ℕ → List Event → List Event
unread n [] = []
unread n (e ∷ es) = let rest = unread n es in if leb n e.offset then e ∷ rest else rest

-- A group without an offset is not given the events that are there.
abbrev pub unread_from : Option ℕ → List Event → List Event
unread_from none log = []
unread_from (some n) log = unread n log

module _ (y : Systems) where
  -- A batch that is new to the table is not given up.
  abbrev pub Stored : Buffer × Option (List Event) → World y → Type 0
  Stored (s, none) w = Unit
  Stored (s, some batch) w =
      clashes (map to_order batch) (rows_of y w) ≡ false
      → (alone y (flush batch) w).0 ≡ returned true

  abbrev pub NoneLost : List Event → Consumer y → Type 0
  NoneLost [] c = Unit
  NoneLost (e ∷ es) c =
      Stored (create_from_event e c.state) c.world × NoneLost es (handle_item_used y e c)

  -- The events of the partition that the group has not read.
  abbrev pub to_read : ℕ → List Event → World y → List Event
  to_read p log w = unread_from (y.group.position p w.group) log

  -- A flush, if one began, stops after `n` calls.
  abbrev pub cut : ℕ → Buffer × Option (List Event) → World y → World y
  cut n (s, none) w = w
  cut n (s, some batch) w = stop y n (flush batch) w

  -- The process ends at the next event.
  abbrev pub crash : ℕ → List Event → Consumer y → World y
  crash n [] c = c.world
  crash n (e ∷ es) c = cut n (create_from_event e c.state) c.world

  -- A new consumer handles `j` events, and crashes at the next one, after `n` calls of the flush that
  -- this one begins, if it begins one.
  abbrev pub life : ℕ → List Event → ℕ × ℕ → World y → World y
  life p log (j, n) w =
      crash n (drop j (to_read p log w)) (consume y (take j (to_read p log w)) (waiting y [] w))

  -- One consumer after the other.
  abbrev pub lives : ℕ → List Event → List (ℕ × ℕ) → World y → World y
  lives p log [] w = w
  lives p log (l ∷ ls) w = lives p log ls (life p log l w)

  abbrev pub NoneLostInLives : ℕ → List Event → List (ℕ × ℕ) → World y → Type 0
  NoneLostInLives p log [] w = Unit
  NoneLostInLives p log ((j, n) ∷ ls) w =
      NoneLost (take j (to_read p log w)) (waiting y [] w)
      × NoneLostInLives p log ls (life p log (j, n) w)

pub unread-below :
    (n : ℕ) (done rest : List Event)
    → All (λ (e : Event). e.offset < n) done
    → unread n (done ++ rest) ≡ unread n rest
unfolding unread
unread-below n [] rest h = refl
unread-below n (e ∷ es) rest h = ground (arith, unread-below n es rest h.1)

pub unread-run : (p k n : ℕ) (es : List Event) → IsRun p k es → n ≤ k → unread n es ≡ es
unfolding unread
unread-run p k n [] h le = refl
unread-run p k n (e ∷ es) h le = ground (arith, unread-run p (k + 1) n es h.2 (omega (arith, le)))

pub three_on : (p k : ℕ) (es : List Event) → IsRun p (k + 1 + 1 + 1) es → IsRun p (k + 3) es
three_on p k es h = let same : k + 3 ≡ k + 1 + 1 + 1 = omega arith in rw same h

-- The commit of three events in a row.
pub commits-run :
    (p k : ℕ) (a b e : Event) (es : List Event)
    → IsRun p k (a ∷ b ∷ e ∷ es)
    → offset_for p (commits (a ∷ b ∷ e ∷ [])) ≡ some (k + 3)
unfolding highest
commits-run p k a b e es (pa, oa, (pb, ob, (pe, oe, rest))) =
    commits-highest p (a ∷ b ∷ e ∷ [])
    ∙ rw
        (
          (==_iff a.partition p).1 pa,
          (==_iff b.partition p).1 pb,
          (==_iff e.partition p).1 pe,
          oa,
          ob,
          oe,
        )
        (ap (λ n. some n) (omega arith))
