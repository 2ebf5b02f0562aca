-- ===== src/Limiter/Pour.antt =====
-- LEAKY_BUCKET_SCRIPT of src/redis/redis.service.ts where the leak rate is above 0, so that it has no error.
use redis_api.Common.{ℕ, ◌<◌, ◌≡◌, refl, arith, Answer, answer, ◌==◌, false}
use redis_api.Text.{Str}
use redis_api.Limiter.HashServer.{Hashes}
use redis_api.Limiter.{
  drain_seconds, level_field, time_field, Verdict, decide, bucket_key, leaky_bucket, write_back,
}

module _ (h : Hashes) where
  open h use {State, hmget, hset, expire}

  unfoldable pub poured_back : Str → ℕ → ℕ → ℕ → Verdict → State → Verdict × State
  poured_back key cap rate now v s =
      (v, expire key (drain_seconds cap rate) (hset key level_field v.level time_field now s))

  unfoldable pub pour : Str → ℕ → ℕ → ℕ → State → Verdict × State
  unfolding poured_back
  pour id cap rate now s =
      let key = bucket_key id in
      let (level, last_time) = hmget key level_field time_field s in
      poured_back key cap rate now (decide cap rate now level last_time) s

  abbrev pub answered : Verdict × State → Answer Verdict × State
  answered (v, s) = (answer v, s)

  positive : (rate : ℕ) → 0 < rate → (rate == 0) ≡ false
  positive rate pos = ground arith

  pub leaky_bucket-pour :
      (id : Str) (cap rate now : ℕ) (s : State)
      → 0 < rate
      → leaky_bucket h id cap rate now s ≡ answered (pour id cap rate now s)
  unfolding leaky_bucket pour poured_back write_back
  leaky_bucket-pour id cap rate now s pos = rw (positive rate pos) refl
