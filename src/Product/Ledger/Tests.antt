-- ===== src/Product/Ledger/Tests.antt =====
-- One sale, step by step, on a server and a broker in memory; the theorems at its end.
use redis_api.Common.{ℕ, ◌+◌, ◌*◌, ◌≤◌, ◌≡◌, refl, some, inr, [], ◌∷◌}
use redis_api.Text.{codes, ◌===◌}
use redis_api.Text.Decimal.{show, show_ℤ, read_ℤ}
use redis_api.Redis.Server.{text}
use redis_api.Redis.Scripts.{decrement_script, release_script, count_down}
use redis_api.Service.World.{sound, unsent, execute, act}
use redis_api.Service.Memory.{desk, new_world}
use redis_api.Product.{use_item, get_inventory, reset_inventory}
use redis_api.Product.Ledger.System.{using, reading, resetting}
use redis_api.Product.Ledger.Schedule.{Run, joined, schedule}
use redis_api.Product.Ledger.Holds.{Holds, published}
use redis_api.Product.Ledger.Invariant.{Ledger}
use redis_api.Product.Ledger.Ends.{arrivals, calls, waited, schedules_end}
use redis_api.Product.Ledger.Conservation.{items_conserved, stock-eq-unpublished}

-- Draw a token, take the lock, decrement, release the lock, emit, reply.
sale : Run
unfolding schedule
sale = schedule (using (some (codes "id"))) (sound ∷ sound ∷ sound ∷ sound ∷ sound ∷ sound ∷ [])

sale_result :
    (sale.last.requests ≡ [])
    × (published desk sale.last.world ≡ 1)
    × (desk.server.value (codes "inventory") sale.last.world.redis ≡ text (codes "999"))
unfolding sale use_item act execute decrement_script release_script count_down show read_ℤ show_ℤ
    ◌===◌
sale_result = (refl, refl, refl)

-- A reset between the decrement and the emit of a request, whose emit fails: the item is put back on
-- top of the full stock.
crossed : Run
unfolding schedule
crossed =
    joined
      (joined (schedule (using (some (codes "id"))) (sound ∷ sound ∷ sound ∷ sound ∷ [])) resetting
        (sound ∷ sound ∷ []))
      reading (sound ∷ sound ∷ unsent ∷ sound ∷ sound ∷ [])

crossed_result :
    (crossed.last.requests ≡ [])
    × (crossed.last.granted ≡ 1000)
    × (crossed.last.withdrawn ≡ 999)
    × (desk.server.value (codes "inventory") crossed.last.world.redis ≡ text (codes "1001"))
unfolding crossed use_item get_inventory reset_inventory act execute decrement_script release_script
    count_down show read_ℤ show_ℤ ◌===◌
crossed_result = (refl, refl, refl, refl)

items_conserved_example : Ledger desk 1000 crossed.last
items_conserved_example =
    items_conserved desk 1000 new_world (inr (refl, refl, refl)) refl crossed.reach

stock-eq-unpublished_example :
    (m : ℕ) × (m + published desk sale.last.world ≡ 1000 + 0) × Holds desk m 0 sale.last.world.redis
unfolding sale use_item act execute decrement_script release_script count_down show read_ℤ show_ℤ
    ◌===◌
stock-eq-unpublished_example =
    stock-eq-unpublished desk 1000 new_world (inr (refl, refl, refl)) refl sale.reach refl refl refl
      refl

schedules_end_example :
    (calls desk crossed.reach ≤ 20 * arrivals desk crossed.reach)
    × (waited desk crossed.reach ≤ 1550 * arrivals desk crossed.reach)
schedules_end_example = schedules_end desk crossed.reach refl
