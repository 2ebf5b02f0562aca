-- ===== src/Product/Counter/Tests.antt =====
-- The last item taken, the next call refused, and an item put back.
use redis_api.Common.{refl, none, [], ◌∷◌}
use redis_api.Text.{◌===◌}
use redis_api.Text.Decimal.{show}
use redis_api.Redis.Server.{text}
use redis_api.Redis.Memory.{write, fresh}
use redis_api.Service.World.{World}
use redis_api.Service.Memory.{desk}
use redis_api.Product.{inventory_key}
use redis_api.Product.Counter.{
  take_one, put_back, read_stock, reset_stock, count_all, AllAgree, run_all, run_all-AllAgree,
}

abbrev one_left : World desk
one_left = record { redis = write inventory_key (text (show 1)) none fresh; kafka = []; drawn = 0 }

run_all-AllAgree_example :
    AllAgree desk
      (count_all (take_one ∷ take_one ∷ put_back ∷ read_stock ∷ reset_stock ∷ []) 1)
      (run_all desk (take_one ∷ take_one ∷ put_back ∷ read_stock ∷ reset_stock ∷ []) one_left)
unfolding ◌===◌
run_all-AllAgree_example =
    run_all-AllAgree desk (take_one ∷ take_one ∷ put_back ∷ read_stock ∷ reset_stock ∷ []) 1
      one_left refl
