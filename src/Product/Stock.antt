-- ===== src/Product/Stock.antt =====
-- `getInventory` and `resetInventory` of src/product/product.controller.ts, with no call failing.
mod Tests
use redis_api.Common.{ℕ, ◌≡◌, ◌∙◌, refl, ap, inl, inr, some}
use redis_api.Common.Int.{pos}
use redis_api.Text.{===_refl}
use redis_api.Text.Decimal.{show, parse_int-show}
use redis_api.Effect.{Outcome, returned, run}
use redis_api.Redis.Inventory.{Counts}
use redis_api.Service.World.{Systems, World, execute}
use redis_api.Product.{inventory_key, initial_stock, get_inventory, reset_inventory}

module _ (y : Systems) where
  -- Where the stock counts n items, also where it is missing and counts as the initial stock,
  -- `getInventory` returns n and changes nothing.
  pub get_inventory-Counts :
      (n : ℕ) (w : World y)
      → Counts y.server inventory_key initial_stock n w.redis
      → run (execute y) get_inventory w ≡ (returned (some (pos n)), w)
  unfolding get_inventory execute
  get_inventory-Counts n w (inl h) =
      rw (y.server.get_lem inventory_key w.redis, h, parse_int-show n) refl
  get_inventory-Counts n w (inr (gone, e)) =
      rw (y.server.get_lem inventory_key w.redis, gone, e) refl

  -- Whatever the key of the stock held, after `resetInventory` `getInventory` returns the initial
  -- stock.
  pub reset_inventory-get :
      (w : World y)
      → (run (execute y) get_inventory (run (execute y) reset_inventory w).1).0
        ≡ returned (some (pos initial_stock))
  unfolding reset_inventory execute
  reset_inventory-get w =
      let w' = (run (execute y) reset_inventory w).1 in
      ap (λ (o : Outcome _ × World y). o.0)
        (get_inventory-Counts initial_stock w' (
          inl (
            y.server.value-set inventory_key (show initial_stock) inventory_key w.redis
            ∙ rw (===_refl inventory_key) refl)))
