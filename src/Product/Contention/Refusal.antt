-- ===== src/Product/Contention/Refusal.antt =====
-- `useItem` of src/product/product.controller.ts when all its attempts at the lock fail.
use redis_api.Common.{◌≢◌, ℕ, zero, suc, ◌+◌, ◌-◌, ◌<◌, ◌≡◌, ◌∙◌, refl, Option, none, some, arith}
use redis_api.Text.{Str, ===_iff, ◌===◌}
use redis_api.Effect.{Outcome, returned, thrown, http, run-bind, continue}
use redis_api.Redis.Lock.{set_px_nx-SameBut}
use redis_api.Service.World.{Systems, World, execute}
use redis_api.Product.{
  UseItemReply, inventory_key, lock_key, lock_ttl_ms, lock_retry_count, lock_loop, with_token,
  use_item, service_unavailable,
}
use redis_api.Product.Contention.{
  waits, delay, undisturbed, asked, slept, Held, asked-Held, pass-Held, retry_lem,
}

module _ (y : Systems) where
  open y.server use {value, time_to_live}

  -- The stock and the events are those of `w`.
  abbrev pub Spared : World y → World y → Type 0
  Spared w w' =
      (time_to_live inventory_key w'.redis ≡ none)
      × (value inventory_key w'.redis ≡ value inventory_key w.redis)
      × (w'.kafka ≡ w.kafka)

  other_key : lock_key ≢ inventory_key
  unfolding ◌===◌
  other_key h = cc ((===_iff lock_key inventory_key).1 h)

  slept-Spared :
      (attempt : ℕ) (w0 w : World y) → Spared w0 w → Spared w0 (slept y attempt (asked y w))
  slept-Spared attempt w0 w (untimed, same, quiet) =
      let other =
        set_px_nx-SameBut y.server lock_key (y.uuid w.drawn) lock_ttl_ms inventory_key w.redis
          other_key in
      let untimed' = other.1 ∙ untimed in
      (
        rw (y.server.time-pass (delay attempt) inventory_key (asked y w).redis, untimed') refl,
        y.server.value-pass (delay attempt) inventory_key (asked y w).redis
            ∙ rw untimed' (other.0 ∙ same),
        quiet,
      )

  abbrev GaveUp : World y → Outcome (Option Str) × World y → Type 0
  GaveUp w0 (o, w) = (o ≡ returned none) × Spared w0 w

  loop-GaveUp :
      (n attempt t : ℕ) (owner : Str) (w0 w : World y)
      → Held y owner t w.redis
      → waits n attempt < t
      → Spared w0 w
      → GaveUp w0 (undisturbed y (lock_loop (suc n) attempt) w)
  unfolding waits lock_loop
  loop-GaveUp zero attempt t owner w0 w h long s =
      rw (retry_lem y zero attempt t owner w h) (refl, slept-Spared attempt w0 w s)
  loop-GaveUp (suc n) attempt t owner w0 w h long s = rw (retry_lem y (suc n) attempt t owner w h) (
      loop-GaveUp n (attempt + 1) (t - delay attempt) owner w0 (slept y attempt (asked y w))
        (pass-Held y owner t (delay attempt) (asked y w).redis (asked-Held y owner t w h)
          (omega (arith, long)))
        (omega (arith, long)) (slept-Spared attempt w0 w s))

  abbrev pub Refused : World y → Outcome UseItemReply × World y → Type 0
  Refused w0 (o, w) =
      ((message : Str) × (o ≡ thrown (http service_unavailable message))) × Spared w0 w

  refused :
      (correlation : Option Str) (w0 : World y) (x : Outcome (Option Str) × World y)
      → GaveUp w0 x
      → Refused w0 (continue (execute y) (with_token correlation) x)
  unfolding with_token
  refused correlation w0 (returned none, w) (e, s) = ((_, refl), s)
  refused correlation w0 (returned (some t), w) (e, s) = cc
  refused correlation w0 (thrown x, w) (e, s) = cc

  -- A request that runs alone while the lock is held for longer than the first four waits,
  -- 750 milliseconds, and is not released, throws 503, and leaves a stock that never expires and the published events as they are.
  pub use_item-Refused :
      (correlation : Option Str) (t : ℕ) (owner : Str) (w : World y)
      → Held y owner t w.redis
      → 750 < t
      → time_to_live inventory_key w.redis ≡ none
      → Refused w (undisturbed y (use_item correlation) w)
  unfolding use_item waits
  use_item-Refused correlation t owner w h long untimed =
      rw (run-bind (execute y) (lock_loop lock_retry_count 1) (with_token correlation) w) (
        refused correlation w (undisturbed y (lock_loop lock_retry_count 1) w)
          (loop-GaveUp 4 1 t owner w w h long (untimed, refl, refl)))
