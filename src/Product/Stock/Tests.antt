-- ===== src/Product/Stock/Tests.antt =====
-- A stock of seven, read, and reset and read again.
use redis_api.Common.{◌≡◌, refl, none, some, inl, []}
use redis_api.Common.Int.{pos}
use redis_api.Text.{◌===◌}
use redis_api.Text.Decimal.{show}
use redis_api.Effect.{returned, run}
use redis_api.Redis.Server.{text}
use redis_api.Redis.Memory.{write, fresh}
use redis_api.Service.World.{World, execute}
use redis_api.Service.Memory.{desk}
use redis_api.Product.{inventory_key, get_inventory}
use redis_api.Product.Stock.{get_inventory-Counts}

abbrev seven : World desk
seven = record { redis = write inventory_key (text (show 7)) none fresh; kafka = []; drawn = 0 }

get_inventory-Counts_example :
    run (execute desk) get_inventory seven ≡ (returned (some (pos 7)), seven)
unfolding ◌===◌
get_inventory-Counts_example = get_inventory-Counts desk 7 seven (inl refl)
