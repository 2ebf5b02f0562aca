-- ===== src/Service.antt =====
-- src/redis/redis.service.ts, its methods on string keys, and src/kafka/kafka-producer.service.ts:
-- what a request asks of Redis, Kafka, the timer and the random source. Log lines are left out.

pub mod World
pub mod Exclusion
pub mod Memory
use redis_api.Common.{ℕ, zero, suc, Bool, Option, none, some, List, if◌then◌else◌}
use redis_api.Common.Int.{ℤ}
use redis_api.Text.{Str}
use redis_api.Text.Decimal.{show}
use redis_api.Effect.{Prog, ret, request, ◌>>=◌, ◌>>◌}

-- InventoryEventDto
pub record InventoryEvent : Type 0 where
  pub remaining : ℤ
  pub success : Bool
  pub message : Str
  pub correlation_id : Str

pub data Call : Type 0 where
  -- commands that `this.client` sends to Redis
  set : Str → Str → Call
  set_ex : Str → Str → ℕ → Call
  set_px_nx : Str → Str → ℕ → Call
  get del keys incr : Str → Call
  -- `this.client.eval` of RELEASE_LOCK_SCRIPT and of CHECK_AND_DECREMENT_SCRIPT
  eval_release : Str → Str → Call
  eval_decrement : Str → Str → Call
  -- `lastValueFrom(this.client.emit(topic, message))`
  emit : Str → InventoryEvent → Call
  -- `setTimeout` of so many milliseconds, and `randomUUID()`
  sleep : ℕ → Call
  random_uuid : Call

-- What each call resolves to. `set_px_nx` says whether the reply is `OK`.
abbrev pub Reply : Call → Type 0
Reply (set k v) = Unit
Reply (set_ex k v d) = Unit
Reply (set_px_nx k v d) = Bool
Reply (get k) = Option Str
Reply (del k) = ℕ
Reply (keys p) = List Str
Reply (incr k) = ℤ
Reply (eval_release k token) = ℕ
Reply (eval_decrement k initial) = ℤ
Reply (emit topic event) = Unit
Reply (sleep ms) = Unit
Reply random_uuid = Str

abbrev pub Method : Type 0 → Type 0
Method = Prog Call Reply

-- `set(key, value, ttl?)`: a `ttl` of 0 is falsy, and sets no expiry.
abbrev pub set_value : Str → Str → Option ℕ → Method (Unit {0})
set_value key value none = request (set key value)
set_value key value (some zero) = request (set key value)
set_value key value (some (suc t)) = request (set_ex key value (suc t))

abbrev pub get_value : Str → Method (Option Str)
get_value key = request (get key)

abbrev pub del_value : Str → Method ℕ
del_value key = request (del key)

abbrev pub list_keys : Str → Method (List Str)
list_keys pattern = request (keys pattern)

-- `acquireLock(resource, ttlMs)`
abbrev pub acquire_lock : Str → ℕ → Method (Option Str)
acquire_lock resource ttl_ms = do
  token ← request random_uuid
  acquired ← request (set_px_nx resource token ttl_ms)
  ret (if acquired then some token else none)

abbrev pub release_lock : Str → Str → Method (Unit {0})
release_lock resource token = do request (eval_release resource token); ret tt

abbrev pub increment : Str → Method (Unit {0})
increment key = do request (incr key); ret tt

abbrev pub check_and_decrement : Str → ℕ → Method ℤ
check_and_decrement key initial = request (eval_decrement key (show initial))

-- KafkaProducerService.emit
abbrev pub emit_event : Str → InventoryEvent → Method (Unit {0})
emit_event topic event = request (emit topic event)
