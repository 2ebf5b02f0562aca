-- ===== src/RateLimiterTest/Tests.antt =====
-- The trial on an empty bucket in memory.
use redis_api.Common.{true, ◌≡◌, refl, none, true}
use redis_api.Text.{codes, ◌===◌}
use redis_api.Limiter.{leaky_bucket, decide}
use redis_api.Limiter.Memory.{memory, empty}
use redis_api.RateLimiterTest.{hit}
use redis_api.RateLimiterTest.Allowed.{guarded}

first_hit :
    (hit (guarded memory (codes "a") 10) (0, (empty, 5000, 0))).0
    ≡ record { number = 1; allowed = true; level = none }
unfolding hit leaky_bucket decide ◌===◌
first_hit = refl
