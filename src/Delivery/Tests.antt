-- ===== src/Delivery/Tests.antt =====
-- Four sales from a stock of two, one of which is announced though its buyer was refused.
use redis_api.Common.{ℕ, ◌≡◌, refl, false, none, some, inr, List, [], ◌∷◌, ◌++◌}
use redis_api.Text.{codes, ◌===◌}
use redis_api.Text.Decimal.{show, show_ℤ, read_ℤ}
use redis_api.Redis.Server.{text}
use redis_api.Redis.Memory.{write, fresh}
use redis_api.Service.World.{World, sound, unanswered, act, execute as execute_call}
use redis_api.Service.{InventoryEvent}
use redis_api.Redis.Scripts.{decrement_script, release_script, count_down}
use redis_api.Product.{use_item}
use redis_api.Product.Ledger.System.{using}
use redis_api.Product.Ledger.Schedule.{Run, joined, schedule}
use redis_api.Delivery.Concurrent.{Accounted, items_in_rows}
use redis_api.Orders.{
  Event, flush, flush_loop, try_batch, save_end, commit_end, back_off, note_offset, commits,
  create_from_event,
}
use redis_api.Orders.Commit.{offset_for}
use redis_api.Orders.Stop.{stop}
use redis_api.Orders.World.{unsent}
use redis_api.Orders.Consumer.Restart.{unread, NoneLost, NoneLostInLives, to_read, lives}
use redis_api.Delivery.Crashes.{log_of, in_partition, sales_survive_crashes}
use redis_api.Service.Memory.{desk, new_world}
use redis_api.Product.{sold_out}
use redis_api.Orders.World.{World as OrderWorld, clashes, has_key, perform, execute}
use redis_api.Orders.Memory.{host, world}
use redis_api.Orders.Consumer.{waiting, handle_item_used, consume}
use redis_api.Orders.Consumer.Calm.{held}
use redis_api.Delivery.{Sale, event_of, reply_of, books, rows_from}
use redis_api.Delivery.Sales.{HasStock, run_sales-Booked}

abbrev shelf : World desk
shelf = record {
  redis = write (codes "inventory") (text (codes "2")) none fresh;
  kafka = [];
  drawn = 0;
}

abbrev buyers : List Sale
buyers = (codes "a", sound) ∷ (codes "b", unanswered) ∷ (codes "c", sound) ∷ (codes "d", sound) ∷ []

-- One partition, from its first offset on.
abbrev place : ℕ → ℕ × ℕ
place k = (0, k)

buyers-books : books buyers 2 ≡ record {
  replies = some (reply_of 1) ∷ none ∷ some (reply_of 0) ∷ some sold_out ∷ [];
  events = event_of (codes "a") 1 ∷ event_of (codes "b") 0 ∷ event_of (codes "c") 0 ∷ [];
  left = 0;
}
unfolding books
buyers-books = refl

shelf-HasStock : HasStock desk 2 shelf
unfolding ◌===◌ show
shelf-HasStock = (refl, refl)

places_new : clashes (rows_from place 0 (books buyers 2).events) [] ≡ false
unfolding books clashes
places_new = refl

-- The consumer reads on from the offset 0, and crashes after the first save of its rows, which never
-- arrives.
abbrev begun : OrderWorld host
begun = record (world (unsent ∷ [])) { group = λ q. some 0 }

abbrev log : List Event
log = log_of desk host 0 0 (books buyers 2).events

log_kept : NoneLostInLives host 0 log ((2, 1) ∷ []) begun
unfolding books consume handle_item_used create_from_event unread stop
log_kept = ((tt, (tt, tt)), tt)

rest_kept :
    NoneLost host
      (to_read host 0 log (lives host 0 log ((2, 1) ∷ []) begun))
      (waiting host [] (lives host 0 log ((2, 1) ∷ []) begun))
unfolding books consume handle_item_used create_from_event flush flush_loop try_batch save_end
    commit_end back_off perform execute clashes has_key unread offset_for note_offset commits stop
rest_kept = (tt, (tt, (λ e. refl, tt)))

sales_survive_crashes_example :
    held host (
      consume host
        (to_read host 0 log (lives host 0 log ((2, 1) ∷ []) begun))
        (waiting host [] (lives host 0 log ((2, 1) ∷ []) begun)))
    ≡ [] ++ rows_from (in_partition 0) 0 (books buyers 2).events
sales_survive_crashes_example =
    sales_survive_crashes desk host 0 0 buyers 2 ((2, 1) ∷ []) shelf begun (books buyers 2).events
      shelf-HasStock ((run_sales-Booked desk buyers 2 shelf shelf-HasStock).1) refl places_new
      log_kept rest_kept

-- The second request runs between the decrement and the emit of the first one; a third one follows.
three_sales : Run
unfolding schedule
three_sales =
    joined
      (joined (schedule (using (some (codes "a"))) (sound ∷ sound ∷ sound ∷ sound ∷ []))
        (using (some (codes "b")))
        (sound ∷ sound ∷ sound ∷ sound ∷ sound ∷ sound ∷ sound ∷ sound ∷ []))
      (using (some (codes "c"))) (sound ∷ sound ∷ sound ∷ sound ∷ sound ∷ sound ∷ [])

abbrev announced : List InventoryEvent
announced = event_of (codes "b") 998 ∷ event_of (codes "a") 999 ∷ event_of (codes "c") 997 ∷ []

three_sales_result : desk.broker.delivered three_sales.last.world.kafka ≡ announced
unfolding three_sales use_item act execute_call decrement_script release_script count_down show
    read_ℤ show_ℤ ◌===◌
three_sales_result = refl

abbrev their_log : List Event
their_log = log_of desk host 0 0 announced

theirs_kept : NoneLostInLives host 0 their_log ((2, 1) ∷ []) begun
unfolding consume handle_item_used create_from_event unread stop
theirs_kept = ((tt, (tt, tt)), tt)

their_rest_kept :
    NoneLost host
      (to_read host 0 their_log (lives host 0 their_log ((2, 1) ∷ []) begun))
      (waiting host [] (lives host 0 their_log ((2, 1) ∷ []) begun))
unfolding consume handle_item_used create_from_event flush flush_loop try_batch save_end commit_end
    back_off perform execute clashes has_key unread offset_for note_offset commits stop
their_rest_kept = (tt, (tt, (λ e. refl, tt)))

theirs_new : clashes (rows_from (in_partition 0) 0 announced) [] ≡ false
unfolding clashes
theirs_new = refl

items_in_rows_example :
    let last = lives host 0 their_log ((2, 1) ∷ []) begun in
    let rows = held host (consume host (to_read host 0 their_log last) (waiting host [] last)) in
    (rows ≡ [] ++ rows_from (in_partition 0) 0 announced)
    × Accounted desk 1000 [] rows three_sales.last
items_in_rows_example =
    items_in_rows desk host 0 0 1000 new_world three_sales.last announced ((2, 1) ∷ []) begun
      (inr (refl, refl, refl)) refl three_sales.reach three_sales_result refl theirs_new theirs_kept
      their_rest_kept
