-- ===== src/UseItemTest/Stock.antt =====
-- test-use-item.mjs against the stock of src/product/product.controller.ts.
use redis_api.Common.{
  ℕ, ◌+◌, ◌≤◌, ◌≡◌, ◌⊎◌, inl, inr, ◌<◌, ◌≢◌, Bool-cases, true, false, Option, none, some, List,
  ◌++◌, arith,
}
use redis_api.Common.Int.{ℤ, pos, negsuc}
use redis_api.Product.{initial_stock}
use redis_api.UseItemTest.{Response, Target, assertions, run_test}

-- The assertions hold only of a final stock of 0.
assertions-zero :
    (rs : List Response) (final : Option ℤ) → assertions rs final ≡ true → final ≡ some (pos 0)
unfolding assertions
assertions-zero rs none e = ground arith
assertions-zero rs (some (pos n)) e = ground arith
assertions-zero rs (some (negsuc n)) e = ground arith

-- What the controller keeps of its stock: a DELETE sets it, a request takes one item at most, and a GET
-- answers the stock, or without it, and leaves it.
pub record IsStocked (t : Target) : Type 0 where
  pub level : t.State → ℕ
  pub level-del : (s : t.State) → level (t.del s) ≡ initial_stock
  pub level-posts : (n : ℕ) (s : t.State) → level s ≤ level (t.posts n s).1 + n
  pub level-get : (s : t.State) → level (t.get_remaining s).1 ≡ level s
  pub get_remaining-level :
      (s : t.State)
      → ((t.get_remaining s).0 ≡ none) ⊎ ((t.get_remaining s).0 ≡ some (pos (level s)))

not_zero :
    (final : Option ℤ) (n : ℕ)
    → 0 < n
    → (final ≡ none) ⊎ (final ≡ some (pos n))
    → final ≢ some (pos 0)
not_zero final n some_left (inl e) f = cc
not_zero final n some_left (inr e) f = ground arith

module _ (t : Target) (k : IsStocked t) where
  -- Against a server on which a reset sets the stock to the initial one of the controller, a request takes
  -- one item at most, and a read answers the stock or without it, the test fails, however its requests
  -- are answered: at least 985 items are left in the end.
  run_test-fails : (s : t.State) → (run_test t s).0.passed ≡ false
  unfolding run_test
  run_test-fails s =
      let s1 = (t.get_remaining (t.del s)).1 in
      let s2 = (t.posts 5 s1).1 in
      let s3 = (t.posts 10 s2).1 in
      let left : 985 ≤ k.level s3 =
        omega
          (arith, k.level-del s, k.level-get (t.del s), k.level-posts 5 s1, k.level-posts 10 s2) in
      elim (Bool-cases
        (assertions ((t.posts 5 s1).0 ++ (t.posts 10 s2).0) (t.get_remaining s3).0)) [
          | inl passed ↦ absurd (
              not_zero _ (k.level s3) (omega (arith, left)) (k.get_remaining-level s3)
                (assertions-zero _ _ passed))
          | inr failed ↦ failed
        ]
