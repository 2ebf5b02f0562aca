-- ===== src/Redis/Scripts.antt =====
-- The Lua scripts on string keys of src/redis/redis.service.ts. A script runs on the server with
-- nothing in between; an error reply to `redis.call` ends it, and keeps what was written before.
use redis_api.Common.{ℕ, Bool, false, Option, none, some, Answer, answer, error, if◌then◌else◌}
use redis_api.Common.Int.{ℤ, negsuc, nonpos_ℤ}
use redis_api.Text.{Str, ◌===◌}
use redis_api.Text.Decimal.{read_ℤ}
use redis_api.Redis.Server.{Server}

-- `redis.call('GET', KEYS[1]) == ARGV[1]`: a missing key is `false` in Lua, and equal to no text.
abbrev pub holds_token : Option Str → Str → Bool
holds_token none token = false
holds_token (some found) token = found === token

module _ (r : Server) where
  open r use {State, get, set, del, decr}

  deleted : ℕ × State → Answer ℕ × State
  deleted (n, s) = (answer n, s)

  -- RELEASE_LOCK_SCRIPT
  unfoldable pub release_script : Str → Str → State → Answer ℕ × State
  unfolding deleted
  release_script key token s = elim (get key s) [
    | error ↦ (error, s)
    | answer found ↦ if holds_token found token then deleted (del key s) else (answer 0, s)
  ]

  -- CHECK_AND_DECREMENT_SCRIPT from `tonumber` on; `n <= 0` raises an error where `n` is nil.
  unfoldable pub count_down : Str → Str → State → Answer ℤ × State
  count_down key val s = elim (read_ℤ val) [
    | none ↦ (error, s)
    | some n ↦ if nonpos_ℤ n then (answer (negsuc 0), s) else decr key s
  ]

  -- CHECK_AND_DECREMENT_SCRIPT
  unfoldable pub decrement_script : Str → Str → State → Answer ℤ × State
  decrement_script key initial s = elim (get key s) [
    | error ↦ (error, s)
    | answer none ↦ count_down key initial (set key initial s)
    | answer (some val) ↦ count_down key val s
  ]
