-- ===== src/Limiter.antt =====
-- The rate limiter: LEAKY_BUCKET_SCRIPT and `leakyBucket` of src/redis/redis.service.ts, and
-- src/redis/rate-limiter.middleware.ts. Levels are numbers of requests in thousandths: at a leak
-- rate that is a whole number, a millisecond drains a whole number of them; the rounding of the
-- floats of the source is left out. The hash commands of Redis are a parameter, in the child `HashServer`.
pub mod HashServer
pub mod Memory
pub mod Bounds
pub mod Pour
pub mod Traffic
pub mod Burst
pub mod Clients
mod Tests
use redis_api.Common.{
  ℕ, ◌+◌, ◌-◌, ◌*◌, ◌/◌, Bool, true, false, Option, none, some, ◌++◌, leb, ◌==◌, Answer, answer,
  error, if◌then◌else◌,
}
use redis_api.Text.{Str, codes}
use HashServer.{Hashes}

-- `tonumber(vals[i])`, or the default where the field is nil
abbrev pub or_default : Option ℕ → ℕ → ℕ
or_default none d = d
or_default (some n) d = n

-- `math.max(0, level - (elapsed_ms / 1000) * leak_rate)`; a clock that goes back makes `elapsed_ms`
-- negative, and raises the level.
unfoldable pub drained : ℕ → ℕ → ℕ → ℕ → ℕ
drained level last_time now leak_rate =
    if leb last_time now
    then level - (now - last_time) * leak_rate
    else level + (last_time - now) * leak_rate

-- `level + 1 <= capacity`
abbrev pub fits : ℕ → ℕ → Bool
fits level capacity = leb (level + 1000) (capacity * 1000)

-- `math.ceil(capacity / leak_rate) + 1` at a leak rate above 0
abbrev pub drain_seconds : ℕ → ℕ → ℕ
drain_seconds capacity leak_rate = (capacity + leak_rate - 1) / leak_rate + 1

-- `ttl`, in seconds; at a leak rate of 0 it is infinite or no number.
abbrev pub bucket_ttl : ℕ → ℕ → Option ℕ
bucket_ttl capacity leak_rate =
    if leak_rate == 0 then none else some (drain_seconds capacity leak_rate)

abbrev pub level_field : Str
level_field = codes "level"

abbrev pub time_field : Str
time_field = codes "last_time"

pub record Verdict : Type 0 where
  pub allowed : Bool
  pub level : ℕ

-- The level after the request was let in or not.
abbrev pub verdict : ℕ → ℕ → Verdict
verdict capacity level =
    if fits level capacity
    then record { allowed = true; level = level + 1000 }
    else record { allowed = false; level = level }

-- The two fields as the script reads them, at the time `now`.
unfoldable pub decide : ℕ → ℕ → ℕ → Option ℕ → Option ℕ → Verdict
unfolding drained
decide capacity leak_rate now level last_time =
    verdict capacity (drained (or_default level 0) (or_default last_time now) now leak_rate)

-- The rest of the pipeline; HttpStatus.TOO_MANY_REQUESTS with the level in the body; or an exception,
-- where the call to Redis is rejected.
pub data Decision : Type 0 where
  next : Decision
  too_many_requests : ℕ → Decision
  unavailable : Decision

abbrev pub capacity : ℕ
capacity = 100

abbrev pub leak_rate : ℕ
leak_rate = 50

-- `req.ip ?? 'unknown'`
abbrev pub identifier : Option Str → Str
identifier none = codes "unknown"
identifier (some ip) = ip

abbrev pub bucket_key : Str → Str
bucket_key id = codes "leaky_bucket:" ++ id

module _ (h : Hashes) where
  open h use {State, hmget, hset, expire}

  -- HSET and EXPIRE, which refuses a time that is no integer: the script then ends with an error, and
  -- keeps what it has written.
  write_back : Str → Option ℕ → ℕ → Verdict → State → Answer Verdict × State
  write_back key none now v s = (error, hset key level_field v.level time_field now s)
  write_back key (some ttl) now v s =
      (answer v, expire key ttl (hset key level_field v.level time_field now s))

  -- LEAKY_BUCKET_SCRIPT, with what `leakyBucket` makes of its answer
  unfoldable pub leaky_bucket : Str → ℕ → ℕ → ℕ → State → Answer Verdict × State
  unfolding write_back
  leaky_bucket id cap rate now s =
      let key = bucket_key id in
      let (level, last_time) = hmget key level_field time_field s in
      write_back key (bucket_ttl cap rate) now (decide cap rate now level last_time) s

  -- What the middleware makes of the answer.
  abbrev pub decision_of : Answer Verdict → Decision
  decision_of error = unavailable
  decision_of (answer v) = if v.allowed then next else too_many_requests v.level

  -- RateLimiterMiddleware.use, at the time `now`
  unfoldable pub use_limiter : Option Str → ℕ → State → Decision × State
  unfolding leaky_bucket
  use_limiter ip now s =
      let (a, s') = leaky_bucket (identifier ip) capacity leak_rate now s in (decision_of a, s')
