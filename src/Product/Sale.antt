-- ===== src/Product/Sale.antt =====
-- `useItem` of src/product/product.controller.ts, alone, with the lock free and an item in stock.
mod Tests
use mathlib.Core.Path.{subst}
use redis_api.Common.{
  append-nil, ℕ, suc, ◌+◌, ◌-◌, ◌*◌, ◌^◌, ◌++◌, ◌≡◌, ◌≢◌, ◌∙◌, refl, sym, ap, Bool, true, none,
  some, List, [], ◌∷◌, Answer, answer, if◌then◌else◌,
}
use redis_api.Common.Int.{ℤ, pos, negative_ℤ}
use redis_api.Text.{Str, ◌===◌, ===_iff, ===_refl, codes}
use redis_api.Text.Decimal.{show}
use redis_api.Effect.{
  call, ret, throw, settle, request, try_finally, ◌>>=◌, ◌>>◌, Outcome, returned, thrown, http, run,
  run-answered,
}
use redis_api.Redis.Server.{missing, text}
use redis_api.Redis.Scripts.{decrement_script, release_script}
use redis_api.Redis.Inventory.{Counts, Took, decrement_script-suc, incr-Took}
use redis_api.Redis.Lock.{set_px_nx-SameBut, release_script_lem}
use redis_api.Service.{
  InventoryEvent, Method, set_px_nx, eval_decrement, eval_release, incr, sleep, release_lock,
}
use redis_api.Service.World.{
  Systems, World, Fault, sound, unsent, unanswered, execute, act, perform, alone,
}
use redis_api.Product.{
  lock_retry_ms, sold_out, inventory_key, lock_key, item_used, initial_stock, lock_ttl_ms,
  UseItemReply, item_message, service_unavailable, or_random, deliver, take_item, with_token,
  lock_loop, use_item,
}

pub keys_differ : lock_key ≢ inventory_key
unfolding ◌===◌
keys_differ h = cc ((===_iff lock_key inventory_key).1 h)

-- The faults of a request whose emit meets `f`, and which draws one token and asks once for the lock.
abbrev pub emit_meets : Fault → List Fault
emit_meets f = sound ∷ sound ∷ sound ∷ sound ∷ f ∷ []

module _ (y : Systems) (id : Str) (n : ℕ) (w : World y)
    (free : y.server.value lock_key w.redis ≡ missing)
    (stock : Counts y.server inventory_key initial_stock (suc n) w.redis) where
  open y.server use {value, set_px_nx as lock_it}

  abbrev token : Str
  token = y.uuid w.drawn

  -- The server once the lock is taken, the item is taken, and the lock is released.
  abbrev locked : y.server.State
  locked = (lock_it lock_key token lock_ttl_ms w.redis).1

  abbrev taken : y.server.State
  taken = (decrement_script y.server inventory_key (show initial_stock) locked).1

  abbrev released : y.server.State
  released = (release_script y.server lock_key token taken).1

  abbrev world_at : y.server.State → World y
  world_at s = record w { drawn = suc w.drawn; redis = s }

  locked-Counts : Counts y.server inventory_key initial_stock (suc n) locked
  locked-Counts =
      rw
        ((set_px_nx-SameBut y.server lock_key token lock_ttl_ms inventory_key w.redis
          keys_differ).0)
        stock

  locked-ours : value lock_key locked ≡ text token
  locked-ours =
      y.server.value-nx lock_key token lock_ttl_ms lock_key w.redis
      ∙ rw (===_refl lock_key, free) refl

  item-Took :
      Took y.server inventory_key n locked
        (decrement_script y.server inventory_key (show initial_stock) locked)
  item-Took = decrement_script-suc y.server inventory_key initial_stock n locked locked-Counts

  taken-ours : value lock_key taken ≡ text token
  taken-ours = item-Took.2 lock_key (λ e. keys_differ (sym e)) ∙ locked-ours

  release-done :
      (release_script y.server lock_key token taken ≡ (answer 1, released))
      × (value lock_key released ≡ missing)
      × (value inventory_key released ≡ text (show n))
  release-done =
      let (a, gone, kept, time) =
        release_script_lem y.server lock_key token token inventory_key taken taken-ours
          keys_differ in
      (
        ap (λ b. (b, released)) (a ∙ rw (===_refl token) refl),
        gone ∙ rw (===_refl token) refl,
        kept ∙ item-Took.1,
      )

  abbrev pub event : InventoryEvent
  event = record {
    remaining = pos n;
    success = true;
    message = item_message (pos n);
    correlation_id = id;
  }

  -- What follows the answers of SET NX, of the decrement and of the release.
  abbrev asked : Answer Bool → Method UseItemReply
  asked r =
      ((settle r >>= λ acquired. ret (if acquired then some token else none)) >>= λ t. elim t [
        | some t' ↦ ret (some t')
        | none ↦ do request (sleep (lock_retry_ms * 2 ^ (1 - 1))); lock_loop 4 2
      ])
      >>= λ t. with_token (some id) t

  abbrev counted : ℤ → Method UseItemReply
  counted remaining = if negative_ℤ remaining then ret sold_out else deliver (some id) remaining

  abbrev decremented : Answer ℤ → Method UseItemReply
  decremented r = try_finally (settle r) (release_lock lock_key token) >>= λ m. counted m

  abbrev let_go : Answer ℕ → Method UseItemReply
  let_go r = ((settle r >>= λ m. ret tt) >> ret (pos n)) >>= λ m. counted m

  -- Up to the emit, whatever it meets.
  to_emit :
      (f : Fault) (fs : List Fault)
      → run (perform y) (use_item (some id)) (w, sound ∷ sound ∷ sound ∷ sound ∷ f ∷ fs)
        ≡ run (perform y) (deliver (some id) (pos n)) (world_at released, f ∷ fs)
  unfolding use_item lock_loop with_token take_item perform act execute
  to_emit f fs =
      run-answered (perform y) (set_px_nx lock_key token lock_ttl_ms) asked
        (world_at w.redis, sound ∷ sound ∷ sound ∷ f ∷ fs) (world_at locked, sound ∷ sound ∷ f ∷ fs)
        (answer true)
        (ap (λ b. (answer b, (world_at locked, sound ∷ sound ∷ f ∷ fs)))
          (y.server.nx-answer lock_key token lock_ttl_ms w.redis ∙ rw free refl))
      ∙ run-answered (perform y) (eval_decrement inventory_key (show initial_stock)) decremented
          (world_at locked, sound ∷ sound ∷ f ∷ fs) (world_at taken, sound ∷ f ∷ fs)
          (answer (pos n)) (ap (λ a. (a, (world_at taken, sound ∷ f ∷ fs))) item-Took.0)
      ∙ run-answered (perform y) (eval_release lock_key token) let_go
          (world_at taken, sound ∷ f ∷ fs) (world_at released, f ∷ fs) (answer 1)
          (ap (λ (o : Answer ℕ × y.server.State). (o.0, (world_at o.1, f ∷ fs))) release-done.0)

  abbrev pub reply : UseItemReply
  reply = record { success = true; remaining = pos n; message = item_message (pos n) }

  -- The stock, with the lock free, and the events that were published since.
  abbrev pub Leaves : ℕ → List InventoryEvent → World y → Type 0
  Leaves m events w' =
      (value inventory_key w'.redis ≡ text (show m))
      × (value lock_key w'.redis ≡ missing)
      × (y.broker.delivered w'.kafka ≡ y.broker.delivered w.kafka ++ events)

  abbrev pub Ended : Fault → Outcome UseItemReply × World y → Type 0
  Ended sound (o, w') = (o ≡ returned reply) × Leaves n (event ∷ []) w'
  Ended unsent (o, w') =
      ((m : Str) × (o ≡ thrown (http service_unavailable m))) × Leaves (suc n) [] w'
  Ended unanswered (o, w') =
      ((m : Str) × (o ≡ thrown (http service_unavailable m))) × Leaves (suc n) (event ∷ []) w'

  -- The rollback, after the emit left the broker at `k`.
  put_back-Took :
      Took y.server inventory_key (suc n) released (y.server.incr inventory_key released)
  put_back-Took = incr-Took y.server inventory_key n released release-done.2

  abbrev failure : Str
  failure = codes "Event delivery failed. Please retry."

  -- The world with the broker at `k`, before and after the rollback.
  abbrev sold : y.broker.State → World y
  sold k = record w { drawn = suc w.drawn; redis = released; kafka = k }

  abbrev restored : y.broker.State → World y
  restored k = record (sold k) { redis = (y.server.incr inventory_key released).1 }

  abbrev refusal : Method (Unit {0})
  refusal = throw (http service_unavailable failure)

  abbrev incremented : Answer ℤ → Method UseItemReply
  incremented r = ((settle r >>= λ m. ret tt) >> refusal) >> ret reply

  rolled_back :
      (k : y.broker.State)
      → run (perform y) (call (incr inventory_key) incremented) (sold k, [])
        ≡ (thrown (http service_unavailable failure), (restored k, []))
  unfolding perform act execute
  rolled_back k =
      run-answered (perform y) (incr inventory_key) incremented (sold k, []) (restored k, [])
        (answer (pos (suc n))) (ap (λ a. (a, (restored k, []))) put_back-Took.0)

  restored-Leaves :
      (k : y.broker.State) (events : List InventoryEvent)
      → y.broker.delivered k ≡ y.broker.delivered w.kafka ++ events
      → Leaves (suc n) events (restored k)
  restored-Leaves k events e =
      (put_back-Took.1, put_back-Took.2 lock_key (λ h. keys_differ (sym h)) ∙ release-done.1, e)

  abbrev Ends : Fault → Outcome UseItemReply × (World y × List Fault) → Type 0
  Ends f (o, (w', fs)) = Ended f (o, w')

  deliver-Ends :
      (f : Fault) → Ends f (run (perform y) (deliver (some id) (pos n)) (world_at released, f ∷ []))
  unfolding deliver or_random perform act execute
  deliver-Ends sound =
      (refl, (release-done.2, release-done.1, y.broker.delivered-send item_used event w.kafka))
  deliver-Ends unsent =
      subst (Ends unsent) (sym (rolled_back w.kafka))
        ((failure, refl), restored-Leaves w.kafka [] (sym (append-nil _)))
  deliver-Ends unanswered =
      let k = y.broker.send item_used event w.kafka in
      subst (Ends unanswered) (sym (rolled_back k)) (
        (failure, refl),
        restored-Leaves k (event ∷ []) (y.broker.delivered-send item_used event w.kafka),
      )

  -- With the lock free and n + 1 items in stock (a missing stock counts as the initial one), a
  -- request that runs alone, and of whose calls at most the emit fails: if the emit is answered, it
  -- replies success with n remaining, leaves n, and one event is published, with that number and the
  -- request's correlation id. If the emit fails, it throws 503 and leaves n + 1; the event is
  -- published only if the broker had it before the answer was lost. In each case the lock is free.
  pub use_item-Ended : (f : Fault) → Ended f (alone y (use_item (some id)) (emit_meets f) w)
  unfolding alone
  use_item-Ended f = subst (Ends f) (sym (to_emit f [])) (deliver-Ends f)
