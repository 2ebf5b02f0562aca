-- ===== src/Benchmark/Tests.antt =====
-- The rounds of the benchmark against servers in memory.
use redis_api.Common.{ℕ, ◌+◌, ◌≡◌, refl, none, some, [], ◌∷◌}
use redis_api.Benchmark.{
  repeat, Target, count_ok, send_batch, rate_limited_loop, run_rate_limited, bar,
}

-- No route: every request gets 404.
abbrev lost : Target
lost = record { State = ℕ; answers = λ n s. (repeat n 404, s); sleep = λ ms s. s + ms }

half_bar : bar 1 2 4 ≡ some (b'[' ∷ 0x2588 ∷ 0x2588 ∷ 0x2591 ∷ 0x2591 ∷ b']' ∷ [])
unfolding bar
half_bar = refl

-- After five rounds nothing is served.
lost_run : run_rate_limited lost 5 0 ≡ none
unfolding run_rate_limited rate_limited_loop send_batch count_ok
lost_run = refl
