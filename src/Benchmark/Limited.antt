-- ===== src/Benchmark/Limited.antt =====
-- test-benchmark.mjs against a route without the limiter and one behind the limiter of
-- src/redis/rate-limiter.middleware.ts.
use redis_api.Common.{
  Answer, answer, error, ℕ, zero, suc, ◌+◌, ◌*◌, ◌≤◌, List, [], ◌∷◌, if◌then◌else◌,
}
use redis_api.Text.{Str}
use redis_api.Limiter.HashServer.{Hashes}
use redis_api.Limiter.{capacity, leak_rate, Verdict, leaky_bucket}
use redis_api.Limiter.Burst.{Ready}
use redis_api.Benchmark.{repeat, Target}

module _ (h : Hashes) (id : Str) (gap : ℕ) where
  -- The buckets, the time of the last request, and the time that has gone by since.
  abbrev pub Clocked : Type 0
  Clocked = h.State × ℕ × ℕ

  abbrev status : Answer Verdict → ℕ
  status error = 500
  status (answer v) = if v.allowed then 200 else 429

  abbrev one_more : Answer Verdict × h.State → List ℕ × Clocked → List ℕ × Clocked
  one_more (a, s) (statuses, x) = (status a ∷ statuses, x)

  -- A batch of requests of one client, `gap` milliseconds apart.
  pub batch : ℕ → Clocked → List ℕ × Clocked
  batch zero x = ([], x)
  batch (suc n) (s, now, d) =
      let hit = leaky_bucket h id capacity leak_rate (now + d) (h.pass d s) in
      one_more hit (batch n (hit.1, now + d, gap))

  abbrev pub limited_route : Target
  limited_route = record {
    State = Clocked;
    answers = batch;
    sleep = λ ms (s, now, d). (s, now, d + ms);
  }

  -- The level is within the capacity.
  abbrev Within : Clocked → Type 0
  Within (s, now, d) = (l : ℕ) × (l ≤ capacity * 1000) × Ready h id capacity leak_rate l now s

  -- By the next batch, 25 requests have leaked.
  abbrev Rested : Clocked → Type 0
  Rested (s, now, d) =
      (l : ℕ) × (l ≤ capacity * 1000)
      × (l ≤ 75_000 + d * leak_rate)
      × Ready h id capacity leak_rate l now s

  -- A route without the limiter.
  abbrev pub open_route : ℕ → Clocked → List ℕ × Clocked
  open_route n x = (repeat n 200, x)
