-- ===== src/Limiter/Tests.antt =====
-- Runs of the limiter on a server in memory, and its theorems there.
use redis_api.Common.{◌+◌, ◌*◌, ◌≤◌, ◌≡◌, refl, none, some, [], ◌∷◌, arith, if◌then◌else◌}
use redis_api.Text.{codes, ◌===◌}
use redis_api.Limiter.{level_field, leaky_bucket, use_limiter, decide, too_many_requests}
use redis_api.Limiter.Memory.{Cells, memory, empty}
use redis_api.Limiter.Traffic.{admitted, sum, Filled, admitted_bound}
use redis_api.Limiter.Burst.{burst_admitted}

abbrev half_full : Cells
half_full = (leaky_bucket memory (codes "a") 2 1 0 empty).1

-- Two of three requests at once, one more a second later, none 100 ms after it.
burst : admitted memory (codes "a") 2 1 (0 ∷ 0 ∷ 0 ∷ 1000 ∷ 100 ∷ []) 5000 empty ≡ 3
unfolding admitted leaky_bucket decide ◌===◌
burst = refl

admitted_bound_example :
    1000 * admitted memory (codes "a") 2 1 (0 ∷ 0 ∷ 0 ∷ 1000 ∷ 100 ∷ []) 5000 empty
    ≤ 2 * 1000 + 1 * sum (0 ∷ 0 ∷ 0 ∷ 1000 ∷ 100 ∷ [])
admitted_bound_example =
    admitted_bound memory (codes "a") 2 1 (0 ∷ 0 ∷ 0 ∷ 1000 ∷ 100 ∷ []) 5000 empty (omega arith)
      refl refl

burst_admitted_example : admitted memory (codes "a") 2 1 (0 ∷ 100 ∷ []) 5000 empty ≡ 2
burst_admitted_example =
    burst_admitted memory (codes "a") 2 1 (0 ∷ 100 ∷ []) 5000 empty (omega arith) (omega arith) refl
      refl

half_full-Filled : Filled memory (codes "a") 2 1 1000 0 half_full
unfolding leaky_bucket decide ◌===◌
half_full-Filled = record { level = refl; last_time = refl; living = refl }

-- A full bucket of the unknown client, a millisecond later.
abbrev full : Cells
full = record {
  cell = λ k f. if f === level_field then some 100000 else some 0;
  time = λ k. some 3000;
}

full_rejects : (use_limiter memory none 1 full).0 ≡ too_many_requests 99950
unfolding use_limiter decide ◌===◌
full_rejects = refl
