-- ===== src/Product/Ledger/Movements.antt =====
-- What the calls of Service move in the ledger: an item into the hands of a request, back to the stock
-- or into an event, and the whole stock at a reset.
use redis_api.Common.{
  ℕ, suc, ◌+◌, ◌≡◌, refl, ◌∙◌, inl, inr, none, Answer, answer, error, arith, length-append, [], ◌∷◌,
}
use redis_api.Common.Int.{ℤ}
use redis_api.Text.{Str, ===_refl}
use redis_api.Text.Decimal.{show}
use redis_api.Redis.Scripts.{decrement_script}
use redis_api.Redis.Inventory.{Took, incr-Took}
use redis_api.Service.{InventoryEvent, set, eval_release, eval_decrement, Reply}
use redis_api.Service.World.{Systems, World}
use redis_api.Product.{inventory_key, initial_stock}
use redis_api.Product.Ledger.Owes.{taken, Allowed}
use redis_api.Product.Ledger.System.{items_at}
use redis_api.Product.Ledger.Holds.{
  Holds, published, Kept, Holds-items, Holds-le, unchanged, dropped,
}
use redis_api.Product.Ledger.Decrement.{Decremented, decremented}

module _ (y : Systems) where
  open y.server use {State as Redis, value, time_to_live}

  pub published-send :
      (t : Str) (e : InventoryEvent) (w : World y)
      → published y (record w { kafka = y.broker.send t e w.kafka }) ≡ published y w + 1
  published-send t e w =
      rw (y.broker.delivered-send t e w.kafka) (length-append (y.broker.delivered w.kafka) (e ∷ []))

  module _ (n v rest : ℕ) (w : World y) (holds : Holds y n (v + rest) w.redis)
      (untimed : time_to_live inventory_key w.redis ≡ none) where
    -- INCR by a request that has an item in its hands: the key is there, so it puts the item back.
    pub put_back :
        (k : Str)
        → k ≡ inventory_key
        → v ≡ 1
        → Took y.server inventory_key (suc n) w.redis (y.server.incr k w.redis)
    put_back k ek one = rw ek (elim holds [
      | inl h ↦ incr-Took y.server inventory_key n w.redis h
      | inr h ↦ absurd (omega (arith, h.2))
    ])

    pub incr-untimed : (k : Str) → time_to_live inventory_key (y.server.incr k w.redis).1 ≡ none
    incr-untimed k = y.server.time-incr k inventory_key w.redis ∙ untimed

    -- A release of the lock, answered or not.
    pub released :
        (k t : Str) (after : ℕ → Answer ℕ → Type 0) (out : Answer ℕ × Redis)
        → Allowed v (eval_release k t) after
        → value inventory_key out.1 ≡ value inventory_key w.redis
        → time_to_live inventory_key out.1 ≡ time_to_live inventory_key w.redis
        → Kept y n v rest 0 0 0 w (eval_release k t) after out.0 (record w { redis = out.1 })
    released k t after (answer m, s) h e u =
        unchanged y n v rest w holds untimed _ after (answer m) (record w { redis = s }) (h.2 m) e u
          refl
    released k t after (error, s) h e u =
        dropped y n v rest w holds untimed _ after error (record w { redis = s }) h.3 h.1 e u refl

    -- A successful decrement puts an item into the request's hands.
    pub handed :
        (k i : Str) (after : ℕ → Answer ℤ → Type 0) (out : Answer ℤ × Redis)
        → Allowed v (eval_decrement k i) after
        → Decremented y n rest out
        → Kept y n v rest 0 0 0 w (eval_decrement k i) after out.0 (record w { redis = out.1 })
    handed k i after out h d = record {
      stock = d.stock;
      hands = taken out.0;
      lost = 0;
      owes = h.3 out.0;
      holds = d.holds;
      untimed = d.untimed;
      few = omega arith;
      plain = λ g. refl;
      balance = omega (arith, d.sum, h.0);
    }

    pub script-Decremented :
        (k i : Str) (after : ℕ → Answer ℤ → Type 0)
        → Allowed v (eval_decrement k i) after
        → Decremented y n rest (decrement_script y.server k i w.redis)
    script-Decremented k i after h =
        decremented y n rest w.redis k i h.1 h.2
          (Holds-le y n (v + rest) rest w.redis (omega arith) holds) untimed

    -- The SET of a reset: it takes the stock off, and puts the initial one there.
    pub reset_to :
        (k t : Str) (after : ℕ → Answer (Reply (set k t)) → Type 0) (a : Answer (Reply (set k t)))
        → k ≡ inventory_key
        → t ≡ show initial_stock
        → after v a
        → Kept y n v rest 0 initial_stock
            (items_at (value inventory_key w.redis))
            w
            (set k t)
            after
            a
            (record w { redis = y.server.set k t w.redis })
    reset_to k t after a ek et owes = record {
      stock = initial_stock;
      hands = v;
      lost = 0;
      owes = owes;
      holds =
          inl (
            y.server.value-set k t inventory_key w.redis
            ∙ rw (ek, et, ===_refl inventory_key) refl);
      untimed = y.server.time-set k t inventory_key w.redis ∙ rw (ek, ===_refl inventory_key) refl;
      few = omega arith;
      plain = λ g. absurd (omega (arith, g));
      balance = omega (arith, Holds-items y n (v + rest) w.redis holds);
    }
