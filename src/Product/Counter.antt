-- ===== src/Product/Counter.antt =====
-- The stock of src/product/product.controller.ts as a counter: what the calls on its key answer, in
-- any order, with no call failing.
mod Tests
use mathlib.Core.Path.{ap₂, subst}
use redis_api.Common.{
  ℕ, zero, suc, ◌≡◌, ◌∙◌, refl, sym, ap, Option, none, some, List, [], ◌∷◌, map, Answer, answer,
  inl,
}
use redis_api.Common.Int.{ℤ, pos, negsuc}
use redis_api.Text.{===_refl}
use redis_api.Text.Decimal.{show}
use redis_api.Effect.{ret, settle, Outcome, returned, run, ◌>>=◌, ◌>>◌}
use redis_api.Redis.Server.{text}
use redis_api.Redis.Scripts.{decrement_script}
use redis_api.Redis.Inventory.{decrement_script-suc, decrement_script-zero, incr-Took}
use redis_api.Service.{Method, check_and_decrement, increment}
use redis_api.Service.World.{Systems, World, execute}
use redis_api.Product.{inventory_key, initial_stock, get_inventory, reset_inventory}
use redis_api.Product.Stock.{get_inventory-Counts}

pub data Op : Type 0 where
  take_one put_back read_stock reset_stock : Op

-- The counter: what a call answers, and what it leaves.
abbrev pub counter : Op → ℕ → Option ℤ × ℕ
counter take_one zero = (some (negsuc 0), 0)
counter take_one (suc n) = (some (pos n), n)
counter put_back n = (none, suc n)
counter read_stock n = (some (pos n), n)
counter reset_stock n = (some (pos initial_stock), initial_stock)

-- The same calls as the controller makes them.
abbrev pub controller : Op → Method (Option ℤ)
controller take_one = do n ← check_and_decrement inventory_key initial_stock; ret (some n)
controller put_back = do increment inventory_key; ret none
controller read_stock = get_inventory
controller reset_stock = do reply ← reset_inventory; ret (some (pos reply.remaining))

abbrev pub count_all : List Op → ℕ → List (Option ℤ) × ℕ
count_all [] n = ([], n)
count_all (op ∷ ops) n =
    let (a, m) = counter op n in let (others, k) = count_all ops m in (a ∷ others, k)

module _ (y : Systems) where
  -- The key holds the count.
  abbrev pub HoldsCount : ℕ → World y → Type 0
  HoldsCount n w = y.server.value inventory_key w.redis ≡ text (show n)

  pub run_all : List Op → World y → List (Outcome (Option ℤ)) × World y
  run_all [] w = ([], w)
  run_all (op ∷ ops) w =
      let (o, w') = run (execute y) (controller op) w in
      let (os, w'') = run_all ops w' in (o ∷ os, w'')

  abbrev Agrees : Option ℤ × ℕ → Outcome (Option ℤ) × World y → Type 0
  Agrees (a, n) (o, w) = (o ≡ returned a) × HoldsCount n w

  -- A call that is answered `a` and leaves `n` agrees, if the counter says so.
  answered-Agrees :
      (found : ℤ → Option ℤ) (rest : Answer ℤ → Method (Option ℤ)) (a : ℤ) (n : ℕ) (w : World y)
      (x : Answer ℤ × y.server.State)
      → rest (answer a) ≡ ret (found a)
      → x.0 ≡ answer a
      → y.server.value inventory_key x.1 ≡ text (show n)
      → Agrees (found a, n) (run (execute y) (rest x.0) (record w { redis = x.1 }))
  answered-Agrees found rest a n w (r, s) done e h =
      subst (λ m. Agrees (found a, n) (run (execute y) m (record w { redis = s })))
        (sym (ap rest e ∙ done)) (refl, h)

  take-Agrees :
      (n : ℕ) (w : World y)
      → HoldsCount n w
      → Agrees (counter take_one n) (run (execute y) (controller take_one) w)
  unfolding execute
  take-Agrees zero w h =
      let e = decrement_script-zero y.server inventory_key initial_stock w.redis h in
      answered-Agrees (λ m. some m) (λ r. settle r >>= λ m. ret (some m)) (negsuc 0) 0 w
        (decrement_script y.server inventory_key (show initial_stock) w.redis) refl
        (ap (λ (x : Answer ℤ × y.server.State). x.0) e)
        (ap (λ (x : Answer ℤ × y.server.State). y.server.value inventory_key x.1) e ∙ h)
  take-Agrees (suc n) w h =
      let t = decrement_script-suc y.server inventory_key initial_stock n w.redis (inl h) in
      answered-Agrees (λ m. some m) (λ r. settle r >>= λ m. ret (some m)) (pos n) n w
        (decrement_script y.server inventory_key (show initial_stock) w.redis) refl t.0 t.1

  op-Agrees :
      (op : Op) (n : ℕ) (w : World y)
      → HoldsCount n w
      → Agrees (counter op n) (run (execute y) (controller op) w)
  unfolding execute reset_inventory
  op-Agrees take_one n w h = take-Agrees n w h
  op-Agrees put_back n w h =
      let t = incr-Took y.server inventory_key n w.redis h in
      answered-Agrees (λ m. none) (λ r. (settle r >>= λ m. ret tt) >>= λ m. ret none) (pos (suc n))
        (suc n) w (y.server.incr inventory_key w.redis) refl t.0 t.1
  op-Agrees read_stock n w h = rw (get_inventory-Counts y n w (inl h)) (refl, h)
  op-Agrees reset_stock n w h = (
    refl,
    y.server.value-set inventory_key (show initial_stock) inventory_key w.redis
        ∙ rw (===_refl inventory_key) refl,
  )

  abbrev pub AllAgree : List (Option ℤ) × ℕ → List (Outcome (Option ℤ)) × World y → Type 0
  AllAgree (answers, n) (os, w) = (os ≡ map returned answers) × HoldsCount n w

  -- No sequence of calls that take an item, put one back, read or reset tells the key in Redis from a
  -- counter: from a count in the key, the answers are those of the counter, and the key holds its
  -- count at the end. At a count of 0 a take answers -1 and leaves 0.
  pub run_all-AllAgree :
      (ops : List Op) (n : ℕ) (w : World y)
      → HoldsCount n w
      → AllAgree (count_all ops n) (run_all ops w)
  unfolding run_all
  run_all-AllAgree [] n w h = (refl, h)
  run_all-AllAgree (op ∷ ops) n w h =
      let (o, held) = op-Agrees op n w h in
      let (os, last) =
        run_all-AllAgree ops (counter op n).1 (run (execute y) (controller op) w).1 held in
      (ap₂ ◌∷◌ o os, last)
