-- ===== src/Orders/Stop.antt =====
-- The process of order-consumer/src/orders stops at a call of a method, as in a crash.
use redis_api.Common.{ℕ, zero, suc}
use redis_api.Effect.{ret, throw, call, ◌>>=◌}
use redis_api.Orders.{Method}
use redis_api.Orders.World.{Systems, World, perform}

module _ (y : Systems) where
  -- What is left after `n` calls of a method; the last may have met any fault.
  unfoldable pub stop : {A : Type 0} → ℕ → Method A → World y → World y
  stop zero m w = w
  stop (suc n) (ret a) w = w
  stop (suc n) (throw e) w = w
  stop (suc n) (call c k) w = stop n (k (perform y c w).0) (perform y c w).1

  -- `P` holds of the world before each call and at the end, and `Q` of what is returned.
  abbrev pub Steps :
      (P : World y → Type 0) → {A : Type 0} → (A → World y → Type 0) → Method A → World y → Type 0
  Steps P Q (ret a) w = P w × Q a w
  Steps P Q (throw e) w = P w
  Steps P Q (call c k) w = P w × Steps P Q (k (perform y c w).0) (perform y c w).1

  module _ (P : World y → Type 0) where
    pub bind-Steps :
        {A B : Type 0} (Q : A → World y → Type 0) (R : B → World y → Type 0) (m : Method A)
        (f : A → Method B) (w : World y)
        → Steps P Q m w
        → ((a : A) (w' : World y) → Q a w' → Steps P R (f a) w')
        → Steps P R (m >>= f) w
    bind-Steps Q R (ret a) f w h g = g a w h.1
    bind-Steps Q R (throw e) f w h g = h
    bind-Steps Q R (call c k) f w h g =
        (h.0, bind-Steps Q R (k (perform y c w).0) f (perform y c w).1 h.1 g)

    pub stop-Steps :
        {A : Type 0} (Q : A → World y → Type 0) (n : ℕ) (m : Method A) (w : World y)
        → Steps P Q m w
        → P (stop n m w)
    unfolding stop
    stop-Steps Q zero (ret a) w h = h.0
    stop-Steps Q zero (throw e) w h = h
    stop-Steps Q zero (call c k) w h = h.0
    stop-Steps Q (suc n) (ret a) w h = h.0
    stop-Steps Q (suc n) (throw e) w h = h
    stop-Steps Q (suc n) (call c k) w h = stop-Steps Q n (k (perform y c w).0) (perform y c w).1 h.1
