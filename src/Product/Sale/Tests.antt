-- ===== src/Product/Sale/Tests.antt =====
-- The first sale, whose event reaches the broker while the answer is lost.
use redis_api.Common.{refl, some, inr}
use redis_api.Text.{codes}
use redis_api.Service.World.{unanswered, alone}
use redis_api.Service.Memory.{desk, new_world}
use redis_api.Product.{use_item}
use redis_api.Product.Sale.{Ended, emit_meets, use_item-Ended}

use_item-Ended_example :
    Ended desk
      (codes "id")
      999
      new_world
      refl
      (inr (refl, refl))
      unanswered
      (alone desk (use_item (some (codes "id"))) (emit_meets unanswered) new_world)
use_item-Ended_example =
    use_item-Ended desk (codes "id") 999 new_world refl (inr (refl, refl)) unanswered
