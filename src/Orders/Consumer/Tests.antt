-- ===== src/Orders/Consumer/Tests.antt =====
-- Five events at a consumer in memory, and a shutdown.
use redis_api.Common.{
  ℕ, ◌+◌, ◌≤◌, ◌≡◌, ◌⊎◌, refl, List, some, true, false, [], ◌∷◌, ◌++◌, map, take,
}
use redis_api.Effect.{returned}
use redis_api.Orders.{
  Event, to_order, flush, flush_loop, try_batch, save_end, commit_end, back_off, note_offset,
  commits, max_retries, create_from_event,
}
use redis_api.Orders.World.{
  World, clashes, sound, perform, execute, has_key, unsent, unanswered, alone,
}
use redis_api.Orders.Memory.{host, world, sold, five}
use redis_api.Orders.Service.{Service, Reach, here, next, arrive, settle, new_service}
use redis_api.Orders.Queue.{trace, came, ended}
use redis_api.Orders.Shutdown.{TakenTwice, destroy_repeats}
use redis_api.Orders.Patience.{Attempts, flush-Ended}
use redis_api.Orders.Consumer.{Consumed, handle_item_used, consume, waiting, consume_in_order}
use redis_api.Orders.Consumer.Calm.{held}
use redis_api.Orders.Consumer.Restart.{unread, NoneLost, to_read, lives, NoneLostInLives}
use redis_api.Orders.Consumer.Restart.Resume.{crashes_lose_nothing}
use redis_api.Orders.Stop.{stop}
use redis_api.Orders.Flush.Stops.{Whole, flush-Whole}
use redis_api.Orders.Commit.{offset_for}

five_new : clashes (map to_order five) [] ≡ false
unfolding clashes
five_new = refl

consume_in_order_example :
    Consumed host five
      (world (unsent ∷ unanswered ∷ []))
      (consume host five (waiting host [] (world (unsent ∷ unanswered ∷ []))))
consume_in_order_example = consume_in_order host five (world (unsent ∷ unanswered ∷ [])) five_new

-- Kafka reads on from the offset 1, and the first commit never arrives.
abbrev begun : World host
begun = record (world (sound ∷ unsent ∷ [])) { group = λ q. some 1 }

abbrev six : List Event
six = sold 0 1 ∷ sold 0 2 ∷ sold 0 3 ∷ sold 0 4 ∷ sold 0 5 ∷ sold 0 6 ∷ []

-- The first consumer crashes after the commit failed, the second one before its first event.
abbrev ends : List (ℕ × ℕ)
ends = (2, 2) ∷ (0, 0) ∷ []

three_new : clashes (map to_order (sold 0 1 ∷ sold 0 2 ∷ sold 0 3 ∷ [])) [] ≡ false
unfolding clashes has_key
three_new = refl

six_new : clashes (map to_order six) [] ≡ false
unfolding clashes has_key
six_new = refl

begun_kept : NoneLostInLives host 0 six ends begun
unfolding consume handle_item_used create_from_event flush flush_loop try_batch save_end commit_end
    back_off perform execute clashes has_key unread offset_for note_offset commits stop
begun_kept = ((tt, (tt, tt)), (tt, tt))

last_kept :
    NoneLost host
      (to_read host 0 six (lives host 0 six ends begun))
      (waiting host [] (lives host 0 six ends begun))
unfolding consume handle_item_used create_from_event flush flush_loop try_batch save_end commit_end
    back_off perform execute clashes has_key unread offset_for note_offset commits stop
last_kept = (tt, (tt, (λ e. cc, (tt, (tt, (λ e. refl, tt))))))

crashes_lose_nothing_example :
    held host (
      consume host
        (to_read host 0 six (lives host 0 six ends begun))
        (waiting host [] (lives host 0 six ends begun)))
    ≡ [] ++ map to_order six
crashes_lose_nothing_example =
    crashes_lose_nothing host 0 1 six ends begun
      (refl, refl, (refl, refl, (refl, refl, (refl, refl, (refl, refl, (refl, refl, tt)))))) refl
      six_new begun_kept last_kept

flush-Whole_example :
    Whole host
      (sold 0 1)
      (sold 0 2 ∷ sold 0 3 ∷ [])
      begun
      three_new
      (stop host 2 (flush (sold 0 1 ∷ sold 0 2 ∷ sold 0 3 ∷ [])) begun)
flush-Whole_example = flush-Whole host (sold 0 1) (sold 0 2 ∷ sold 0 3 ∷ []) begun three_new 2

destroy_repeats_example :
    TakenTwice
      (sold 0 1 ∷ sold 0 2 ∷ sold 0 3 ∷ [])
      (sold 0 4 ∷ [])
      (record { buffer = sold 0 1 ∷ sold 0 2 ∷ sold 0 3 ∷ sold 0 4 ∷ []; flushing = true })
destroy_repeats_example =
    destroy_repeats (sold 0 1 ∷ sold 0 2 ∷ sold 0 3 ∷ []) (sold 0 4 ∷ []) true
      (refl, refl, (sold 0 4 ∷ [], refl))

flush-Ended_example :
    (k : ℕ) × Attempts host
      (sold 0 1)
      (sold 0 2 ∷ sold 0 3 ∷ sold 0 4 ∷ sold 0 5 ∷ [])
      max_retries
      1
      false
      (world (unsent ∷ []))
      k
      (alone host (flush five) (world (unsent ∷ [])))
    × ((alone host (flush five) (world (unsent ∷ []))).1.waited
        ≡ [] ++ take k (200 ∷ 400 ∷ 800 ∷ 1600 ∷ 3200 ∷ []))
    × ((((alone host (flush five) (world (unsent ∷ []))).0 ≡ returned true) × (k + 1 ≤ max_retries))
        ⊎ (((alone host (flush five) (world (unsent ∷ []))).0 ≡ returned false)
            × (k ≡ max_retries)))
flush-Ended_example =
    flush-Ended host (sold 0 1) (sold 0 2 ∷ sold 0 3 ∷ sold 0 4 ∷ sold 0 5 ∷ [])
      (world (unsent ∷ []))

-- Four events arrive, and the flush of the first three ends unsaved.
half_saved : (t : Service) × Reach new_service t
unfolding create_from_event
half_saved = (
  _,
  next
      (next (next (next (next here (arrive (sold 0 1))) (arrive (sold 0 2))) (arrive (sold 0 3)))
        (arrive (sold 0 4)))
      (settle (sold 0 1 ∷ sold 0 2 ∷ sold 0 3 ∷ []) false refl),
)

half_saved_trace :
    trace half_saved.1
    ≡ came (sold 0 1)
      ∷ came (sold 0 2)
      ∷ came (sold 0 3)
      ∷ came (sold 0 4)
      ∷ ended (sold 0 1 ∷ sold 0 2 ∷ sold 0 3 ∷ []) false
      ∷ []
unfolding half_saved trace
half_saved_trace = refl
