-- ===== src/Product/Contention/Tests.antt =====
-- A lock in memory that is held for 200 milliseconds, and one that is held for a second.
use redis_api.Common.{ℕ, refl, some, [], arith}
use redis_api.Text.{codes, ◌===◌}
use redis_api.Redis.Server.{text}
use redis_api.Redis.Memory.{write, fresh}
use redis_api.Service.World.{World}
use redis_api.Service.Memory.{desk}
use redis_api.Product.{lock_loop, use_item, lock_retry_count, lock_key}
use redis_api.Product.Contention.{Taken, undisturbed, lock_loop-Taken}
use redis_api.Product.Contention.Refusal.{Refused, use_item-Refused}

abbrev held_for : ℕ → World desk
held_for t = record {
  redis = write lock_key (text (codes "theirs")) (some t) fresh;
  kafka = [];
  drawn = 0;
}

lock_loop-Taken_example :
    Taken desk (undisturbed desk (lock_loop lock_retry_count 1) (held_for 200))
unfolding ◌===◌
lock_loop-Taken_example =
    lock_loop-Taken desk 200 (codes "theirs") (held_for 200)
      (record { token = refl; living = refl }) (omega arith) (omega arith)

use_item-Refused_example :
    Refused desk (held_for 1000) (undisturbed desk (use_item (some (codes "id"))) (held_for 1000))
unfolding ◌===◌
use_item-Refused_example =
    use_item-Refused desk (some (codes "id")) 1000 (codes "theirs") (held_for 1000)
      (record { token = refl; living = refl }) (omega arith) refl
