-- ===== src/UseItemTest.antt =====
-- test-use-item.mjs, which sends two waves of requests to a running server and checks what became of
-- the stock. The server is a parameter; printed lines other than the tags are left out.
pub mod Stock
mod Tests
use mathlib.Core.Bool.{not}
use redis_api.Common.{
  ℕ, ◌+◌, ◌&&◌, Bool, true, false, Option, none, some, List, [], ◌∷◌, ◌++◌, ◌==◌, map, ltb,
  if◌then◌else◌,
}
use redis_api.Common.Int.{ℤ, pos, negsuc}

-- What `post` resolves to: the status, and `success` of the body, where it is there and true.
pub record Response : Type 0 where
  pub status : ℕ
  pub success : Bool

-- The server: as many POSTs at once, `remaining` of a GET, where it is there, and a DELETE.
pub record Target : Type 1 where
  pub State : Type 0
  pub posts : ℕ → State → List Response × State
  pub get_remaining : State → Option ℤ × State
  pub del : State → State

pub data Tag : Type 0 where
  used empty locked : Tag

abbrev pub tag : Response → Tag
tag r = if r.status == 201 then (if r.success then used else empty) else locked

-- `filter(…).length`
unfoldable pub count : (Response → Bool) → List Response → ℕ
count p [] = 0
count p (r ∷ rs) = (if p r then 1 else 0) + count p rs

abbrev pub is_success : Response → Bool
is_success r = r.status == 201 && r.success

abbrev pub is_empty : Response → Bool
is_empty r = r.status == 201 && not r.success

abbrev pub is_locked : Response → Bool
is_locked r = r.status == 503

-- What is printed of a wave.
pub record Wave : Type 0 where
  pub tags : List Tag
  pub successes : ℕ
  pub contended : ℕ
  pub already_empty : ℕ

unfoldable pub wave : List Response → Wave
unfolding count
wave rs = record {
  tags = map tag rs;
  successes = count is_success rs;
  contended = count is_locked rs;
  already_empty = count is_empty rs;
}

-- `final.remaining === 0` and `final.remaining >= 0`; neither holds of undefined.
abbrev pub is_zero : Option ℤ → Bool
is_zero none = false
is_zero (some (pos n)) = n == 0
is_zero (some (negsuc n)) = false

abbrev pub is_natural : Option ℤ → Bool
is_natural none = false
is_natural (some (pos n)) = true
is_natural (some (negsuc n)) = false

-- `assert`, on the flag `passed`
abbrev pub assert : Bool → Bool → Bool
assert condition passed = if condition then passed else false

-- The four assertions, the first outermost.
unfoldable pub assertions : List Response → Option ℤ → Bool
unfolding count
assertions rs final =
    assert (ltb 0 (count is_locked rs))
      (assert (is_natural final) (assert (is_zero final) (assert (count is_success rs == 3) true)))

pub record Report : Type 0 where
  pub initial : Option ℤ
  pub first : Wave
  pub second : Wave
  pub final : Option ℤ
  -- else `process.exit(1)`
  pub passed : Bool

-- The whole script.
module _ (t : Target) where
  open t use {State, posts, get_remaining, del}

  unfoldable pub run_test : State → Report × State
  unfolding wave assertions
  run_test s =
      let (initial, s1) = get_remaining (del s) in
      let (wave1, s2) = posts 5 s1 in
      let (wave2, s3) = posts 10 s2 in
      let (final, s4) = get_remaining s3 in
      (
        record {
          initial = initial;
          first = wave wave1;
          second = wave wave2;
          final = final;
          passed = assertions (wave1 ++ wave2) final;
        },
        s4,
      )
