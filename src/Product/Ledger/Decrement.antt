-- ===== src/Product/Ledger/Decrement.antt =====
-- What the decrement of an item does to the stock.
use redis_api.Common.{ℕ, zero, suc, ◌+◌, ◌≤◌, ◌≡◌, inl, inr, none, Answer, answer, error, arith}
use redis_api.Common.Int.{ℤ, pos, negsuc}
use redis_api.Text.{Str}
use redis_api.Text.Decimal.{show}
use redis_api.Redis.Scripts.{decrement_script}
use redis_api.Redis.Inventory.{
  Took, decrement_script-suc, decrement_script-zero, decrement_script-untimed,
}
use redis_api.Service.World.{Systems}
use redis_api.Product.{inventory_key, initial_stock}
use redis_api.Product.Ledger.Owes.{taken}
use redis_api.Product.Ledger.Holds.{Holds}

pub taken-le : (a : Answer ℤ) → taken a ≤ 1
taken-le (answer (pos n)) = omega arith
taken-le (answer (negsuc n)) = omega arith
taken-le error = omega arith

module _ (y : Systems) where
  open y.server use {State as Redis, value, time_to_live}

  -- What CHECK_AND_DECREMENT_SCRIPT hands over has left the stock.
  pub record Decremented (n rest : ℕ) (out : Answer ℤ × Redis) : Type 0 where
    pub stock : ℕ
    pub sum : stock + taken out.0 ≡ n
    pub holds : Holds y stock (taken out.0 + rest) out.1
    pub untimed : time_to_live inventory_key out.1 ≡ none

  took :
      (n rest : ℕ) (s : Redis) (out : Answer ℤ × Redis)
      → Took y.server inventory_key n s out
      → time_to_live inventory_key out.1 ≡ none
      → Decremented (suc n) rest out
  took n rest s out t u = record {
    stock = n;
    sum = rw t.0 (omega arith);
    holds = inl t.1;
    untimed = u;
  }

  pub decremented :
      (n rest : ℕ) (s : Redis) (k i : Str)
      → k ≡ inventory_key
      → i ≡ show initial_stock
      → Holds y n rest s
      → time_to_live inventory_key s ≡ none
      → Decremented n rest (decrement_script y.server k i s)
  decremented zero rest s k i ek ei (inl h) u =
      rw (ek, ei, decrement_script-zero y.server inventory_key initial_stock s h)
        (record { stock = 0; sum = omega arith; holds = inl h; untimed = u })
  decremented zero rest s k i ek ei (inr h) u = absurd (omega (arith, h.1))
  decremented (suc n) rest s k i ek ei (inl h) u =
      rw (ek, ei)
        (took n rest s _ (decrement_script-suc y.server inventory_key initial_stock n s (inl h))
          (decrement_script-untimed y.server inventory_key (show initial_stock) s u))
  decremented (suc n) rest s k i ek ei (inr h) u =
      rw (ek, ei)
        (took n rest s _
          (decrement_script-suc y.server inventory_key initial_stock n s (inr (h.0, h.1)))
          (decrement_script-untimed y.server inventory_key (show initial_stock) s u))
