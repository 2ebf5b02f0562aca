-- ===== src/RateLimiterTest/Allowed.antt =====
-- test-rate-limiter.mjs against the limiter of src/redis/rate-limiter.middleware.ts.
use redis_api.Common.{
  Answer, answer, error, false, ℕ, zero, suc, ◌+◌, ◌≡◌, true, none, some, List, [], ◌∷◌, All,
  if◌then◌else◌,
}
use redis_api.Text.{Str}
use redis_api.Limiter.HashServer.{Hashes}
use redis_api.Limiter.{capacity, leak_rate, Verdict, leaky_bucket}
use redis_api.Limiter.Burst.{Ready}
use redis_api.RateLimiterTest.{Response, Target, Line}

module _ (h : Hashes) (id : Str) (gap : ℕ) where
  -- The buckets, the time of the last hit, and the time that has gone by since.
  abbrev pub Clocked : Type 0
  Clocked = h.State × ℕ × ℕ

  -- The reply to a request; an error of the script is answered 500.
  abbrev answered : ℕ → Answer Verdict × h.State → Response × Clocked
  answered now (answer v, s) =
      (record { ok = v.allowed; level = if v.allowed then none else some v.level }, (s, now, gap))
  answered now (error, s) = (record { ok = false; level = none }, (s, now, gap))

  -- A server behind the middleware, which one client hits every `gap` milliseconds.
  abbrev pub guarded : Target
  guarded = record {
    State = Clocked;
    fetch = λ (s, now, d).
        answered (now + d) (leaky_bucket h id capacity leak_rate (now + d) (h.pass d s));
    sleep = λ ms (s, now, d). (s, now, d + ms);
  }

  abbrev pub IsReady : ℕ → Clocked → Type 0
  IsReady l (s, now, d) = Ready h id capacity leak_rate l now s

  abbrev pub AllAllowed : List Line → Type 0
  AllAllowed ls = All (λ (l : Line). l.allowed ≡ true) ls

  numbers_from : ℕ → ℕ → List ℕ
  numbers_from zero n = []
  numbers_from (suc k) n = (n + 1) ∷ numbers_from k (n + 1)
