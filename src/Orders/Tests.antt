-- ===== src/Orders/Tests.antt =====
-- Runs of the order service on a table and a consumer group in memory, and its theorems there.
use redis_api.Common.{ℕ, ◌<◌, ◌≡◌, refl, inl, true, false, none, some, List, [], ◌∷◌, map, arith}
use redis_api.Effect.{returned}
use redis_api.Orders.{Event, to_order, commits, flush}
use redis_api.Orders.Commit.{offset_for, highest, plus_one, commits-highest}
use redis_api.Orders.World.{clashes, World, unsent, unanswered, perform, alone}
use redis_api.Orders.Memory.{host, world, sold, kafka}
use redis_api.Orders.Flush.{Flushed, flush-Flushed}
use redis_api.Orders.DeadLetter.{dead_letter_passed}
use redis_api.Orders.Service.{Service}

abbrev three : List Event
three = sold 0 4 ∷ sold 1 9 ∷ sold 0 5 ∷ []

three-commits :
    (offset_for 0 (commits three) ≡ some 6)
    × (offset_for 1 (commits three) ≡ some 10)
    × (offset_for 2 (commits three) ≡ none)
unfolding commits offset_for
three-commits = (refl, refl, refl)

commits-highest_example : offset_for 0 (commits three) ≡ plus_one (highest 0 none three)
commits-highest_example = commits-highest 0 three

-- The first save is lost on its way; the second is carried out and not answered, so that the third
-- and all others clash: the batch is given up, and its rows are there.
lost_answer :
    ((alone host (flush three) (world (unsent ∷ unanswered ∷ []))).0 ≡ returned false)
    × ((alone host (flush three) (world (unsent ∷ unanswered ∷ []))).1.table ≡ map to_order three)
    × ((alone host (flush three) (world (unsent ∷ unanswered ∷ []))).1.waited
        ≡ 200 ∷ 400 ∷ 800 ∷ 1600 ∷ 3200 ∷ [])
unfolding flush perform clashes
lost_answer = (refl, refl, refl)

three_new : clashes (map to_order three) [] ≡ false
unfolding clashes
three_new = refl

flush-Flushed_example :
    Flushed host
      (sold 0 4)
      (sold 1 9 ∷ sold 0 5 ∷ [])
      (world (unsent ∷ []))
      three_new
      (alone host (flush three) (world (unsent ∷ [])))
flush-Flushed_example =
    flush-Flushed host (sold 0 4) (sold 1 9 ∷ sold 0 5 ∷ []) (world (unsent ∷ [])) three_new

-- A restart replays the first event of a batch that was saved and not committed, with two new ones.
abbrev replayed : List Event
replayed = sold 0 5 ∷ sold 0 6 ∷ sold 0 7 ∷ []

abbrev restarted : World host
restarted = record { table = map to_order three; group = λ p. none; waited = []; faults = [] }

three_saved : (alone host (flush three) (world [])).0 ≡ returned true
unfolding flush perform clashes
three_saved = refl

dead_letter_passed_example :
    ((m : ℕ) × (kafka.position 0 (alone host (flush three) (world [])).1.group ≡ some m) × (2 < m))
    × ((alone host (flush three) (world [])).1.table ≡ map to_order three)
dead_letter_passed_example =
    dead_letter_passed host (sold 0 4) (sold 1 9 ∷ sold 0 5 ∷ []) (world []) three_new (sold 0 2)
      (sold 0 4) (inl refl) refl (omega arith) three_saved
