-- ===== src/Product/SoldOut.antt =====
-- `useItem` of src/product/product.controller.ts, alone, with the lock free and the stock empty.

use mathlib.Core.Path.{subst}
use redis_api.Common.{
  ℕ, suc, ◌-◌, ◌*◌, ◌^◌, ◌≡◌, ◌∙◌, refl, sym, ap, Bool, true, none, some, [], ◌∷◌, List, Answer,
  answer, if◌then◌else◌,
}
use redis_api.Common.Int.{ℤ, negsuc, negative_ℤ}
use redis_api.Text.{Str, ===_refl}
use redis_api.Text.Decimal.{show}
use redis_api.Effect.{
  ret, settle, request, try_finally, ◌>>=◌, ◌>>◌, Outcome, returned, run, run-answered,
}
use redis_api.Redis.Server.{missing, text}
use redis_api.Redis.Scripts.{release_script}
use redis_api.Redis.Inventory.{decrement_script-zero}
use redis_api.Redis.Lock.{set_px_nx-SameBut, release_script_lem}
use redis_api.Service.{Method, set_px_nx, eval_decrement, eval_release, sleep, release_lock}
use redis_api.Service.World.{Systems, World, Fault, sound, execute, act, perform, alone}
use redis_api.Product.{
  lock_retry_ms, sold_out, inventory_key, lock_key, initial_stock, lock_ttl_ms, UseItemReply,
  deliver, take_item, with_token, lock_loop, use_item,
}
use redis_api.Product.Sale.{keys_differ, emit_meets}

module _ (y : Systems) (id : Str) (w : World y) (free : y.server.value lock_key w.redis ≡ missing)
    (empty : y.server.value inventory_key w.redis ≡ text (show 0)) where
  open y.server use {value, set_px_nx as lock_it}

  abbrev token : Str
  token = y.uuid w.drawn

  abbrev locked : y.server.State
  locked = (lock_it lock_key token lock_ttl_ms w.redis).1

  abbrev released : y.server.State
  released = (release_script y.server lock_key token locked).1

  abbrev world_at : y.server.State → World y
  world_at s = record w { drawn = suc w.drawn; redis = s }

  locked-empty : value inventory_key locked ≡ text (show 0)
  locked-empty =
      (set_px_nx-SameBut y.server lock_key token lock_ttl_ms inventory_key w.redis keys_differ).0
      ∙ empty

  locked-ours : value lock_key locked ≡ text token
  locked-ours =
      y.server.value-nx lock_key token lock_ttl_ms lock_key w.redis
      ∙ rw (===_refl lock_key, free) refl

  release-done :
      (release_script y.server lock_key token locked ≡ (answer 1, released))
      × (value lock_key released ≡ missing)
      × (value inventory_key released ≡ text (show 0))
  release-done =
      let (a, gone, kept, time) =
        release_script_lem y.server lock_key token token inventory_key locked locked-ours
          keys_differ in
      (
        ap (λ b. (b, released)) (a ∙ rw (===_refl token) refl),
        gone ∙ rw (===_refl token) refl,
        kept ∙ locked-empty,
      )

  -- What follows the answers of SET NX, of the decrement and of the release.
  abbrev asked : Answer Bool → Method UseItemReply
  asked r =
      ((settle r >>= λ acquired. ret (if acquired then some token else none)) >>= λ t. elim t [
        | some t' ↦ ret (some t')
        | none ↦ do request (sleep (lock_retry_ms * 2 ^ (1 - 1))); lock_loop 4 2
      ])
      >>= λ t. with_token (some id) t

  abbrev counted : ℤ → Method UseItemReply
  counted remaining = if negative_ℤ remaining then ret sold_out else deliver (some id) remaining

  abbrev decremented : Answer ℤ → Method UseItemReply
  decremented r = try_finally (settle r) (release_lock lock_key token) >>= λ m. counted m

  abbrev let_go : Answer ℕ → Method UseItemReply
  let_go r = ((settle r >>= λ m. ret tt) >> ret (negsuc 0)) >>= λ m. counted m

  to_end :
      (fs : List Fault)
      → run (perform y) (use_item (some id)) (w, sound ∷ sound ∷ sound ∷ sound ∷ fs)
        ≡ (returned sold_out, (world_at released, fs))
  unfolding use_item lock_loop with_token take_item perform act execute
  to_end fs =
      run-answered (perform y) (set_px_nx lock_key token lock_ttl_ms) asked
        (world_at w.redis, sound ∷ sound ∷ sound ∷ fs) (world_at locked, sound ∷ sound ∷ fs)
        (answer true)
        (ap (λ b. (answer b, (world_at locked, sound ∷ sound ∷ fs)))
          (y.server.nx-answer lock_key token lock_ttl_ms w.redis ∙ rw free refl))
      ∙ run-answered (perform y) (eval_decrement inventory_key (show initial_stock)) decremented
          (world_at locked, sound ∷ sound ∷ fs) (world_at locked, sound ∷ fs) (answer (negsuc 0))
          (ap (λ (o : Answer ℤ × y.server.State). (o.0, (world_at o.1, sound ∷ fs)))
            (decrement_script-zero y.server inventory_key initial_stock locked locked-empty))
      ∙ run-answered (perform y) (eval_release lock_key token) let_go (world_at locked, sound ∷ fs)
          (world_at released, fs) (answer 1)
          (ap (λ (o : Answer ℕ × y.server.State). (o.0, (world_at o.1, fs))) release-done.0)

  -- The reply that nothing is left; the stock, the lock and the events as they were.
  abbrev pub SoldOut : Outcome UseItemReply × World y → Type 0
  SoldOut (o, w') =
      (o ≡ returned sold_out)
      × (value inventory_key w'.redis ≡ text (show 0))
      × (value lock_key w'.redis ≡ missing)
      × (w'.kafka ≡ w.kafka)

  abbrev Ends : Outcome UseItemReply × (World y × List Fault) → Type 0
  Ends (o, (w', fs)) = SoldOut (o, w')

  -- With the lock free and the stock at 0, a request that runs alone, and none of whose calls to Redis
  -- fails, replies that nothing is left; no event is published, the stock stays at 0 and the lock is
  -- free.
  pub use_item-SoldOut : (f : Fault) → SoldOut (alone y (use_item (some id)) (emit_meets f) w)
  unfolding alone
  use_item-SoldOut f =
      subst Ends (sym (to_end (f ∷ []))) (refl, release-done.2, release-done.1, refl)
