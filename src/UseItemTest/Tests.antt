-- ===== src/UseItemTest/Tests.antt =====
-- Runs of test-use-item.mjs.
use redis_api.Common.{
  ℕ, zero, suc, ◌+◌, ◌≤◌, ◌≡◌, inr, refl, true, false, some, List, [], ◌∷◌, arith,
}
use redis_api.Common.Int.{pos}
use redis_api.Product.{initial_stock}
use redis_api.UseItemTest.{Response, Target, count, wave, assertions, run_test}
use redis_api.UseItemTest.Stock.{IsStocked}

-- Requests served one after the other, from a stock; the others find the lock taken.
abbrev posts : ℕ → ℕ → List Response × ℕ
posts zero s = ([], s)
posts (suc n) zero =
    let (rs, s') = posts n zero in (record { status = 503; success = false } ∷ rs, s')
posts (suc n) (suc s) =
    let (rs, s') = posts n s in (record { status = 201; success = true } ∷ rs, s')

-- A reset to this many items.
abbrev shop : ℕ → Target
shop first = record {
  State = ℕ;
  posts = posts;
  get_remaining = λ s. (some (pos s), s);
  del = λ s. first;
}

posts-level : (n s : ℕ) → s ≤ (posts n s).1 + n
posts-level zero s = omega arith
posts-level (suc n) zero = omega arith
posts-level (suc n) (suc s) = omega (arith, posts-level n s)

shop-IsStocked : IsStocked (shop initial_stock)
shop-IsStocked = record {
  level = λ s. s;
  level-del = λ s. refl;
  level-posts = posts-level;
  level-get = λ s. refl;
  get_remaining-level = λ s. inr refl;
}

-- The test passes where a reset puts three items there.
three_items : (run_test (shop 3) 0).0.passed ≡ true
unfolding run_test assertions wave count
three_items = refl
