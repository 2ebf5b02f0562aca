-- ===== src/Service/World.antt =====
-- What stands behind the calls of src/redis/redis.service.ts and
-- src/kafka/kafka-producer.service.ts: the Redis server, the Kafka broker and the random source,
-- none of them code of the repository, and the ways in which a call to them can fail.
use redis_api.Common.{
  ℕ, suc, ◌≡◌, ◌++◌, Bool, true, false, if◌then◌else◌, List, [], ◌∷◌, Answer, answer, error,
}
use redis_api.Text.{Str}
use redis_api.Redis.Server.{Server}
use redis_api.Redis.Scripts.{release_script, decrement_script}
use redis_api.Effect.{Prog, Outcome, run}
use redis_api.Service.{
  InventoryEvent, Call, set, set_ex, set_px_nx, get, del, keys, incr, eval_release, eval_decrement,
  emit, sleep, random_uuid, Reply,
}

-- A broker keeps what it acknowledges, in order.
pub record Broker : Type 1 where
  pub State : Type 0
  pub delivered : State → List InventoryEvent
  pub send : Str → InventoryEvent → State → State
  pub delivered-send :
      (topic : Str) (e : InventoryEvent) (s : State)
      → delivered (send topic e s) ≡ delivered s ++ e ∷ []

pub record Systems : Type 1 where
  pub server : Server
  pub broker : Broker
  -- the random UUIDs, in the order in which they are drawn
  pub uuid : ℕ → Str

-- How a call to Redis or Kafka goes: it is answered; or it never arrives, and is rejected; or it is
-- carried out, and its answer is lost, so that it is rejected too.
pub data Fault : Type 0 where
  sound unsent unanswered : Fault

-- A call that stays within the process.
abbrev pub is_local : Call → Bool
is_local (sleep ms) = true
is_local random_uuid = true
is_local _ = false

module _ (y : Systems) where
  open y.server use {State as Redis}
  open y.broker use {State as Kafka}

  pub record World : Type 0 where
    pub redis : Redis
    pub kafka : Kafka
    pub drawn : ℕ

  in_redis : {A : Type 0} → World → Answer A × Redis → Answer A × World
  in_redis w (a, s) = (a, record w { redis = s })

  -- The call is carried out.
  unfoldable pub execute : (c : Call) → World → Answer (Reply c) × World
  unfolding in_redis
  execute (set k v) w = (answer tt, record w { redis = y.server.set k v w.redis })
  execute (set_ex k v d) w = (answer tt, record w { redis = y.server.set_ex k v d w.redis })
  execute (set_px_nx k v d) w =
      let (stored, s) = y.server.set_px_nx k v d w.redis in (answer stored, record w { redis = s })
  execute (get k) w = (y.server.get k w.redis, w)
  execute (del k) w =
      let (deleted, s) = y.server.del k w.redis in (answer deleted, record w { redis = s })
  execute (keys p) w = (answer (y.server.keys p w.redis), w)
  execute (incr k) w = in_redis w (y.server.incr k w.redis)
  execute (eval_release k token) w = in_redis w (release_script y.server k token w.redis)
  execute (eval_decrement k initial) w = in_redis w (decrement_script y.server k initial w.redis)
  execute (emit topic event) w = (answer tt, record w { kafka = y.broker.send topic event w.kafka })
  execute (sleep ms) w = (answer tt, record w { redis = y.server.pass ms w.redis })
  execute random_uuid w = (answer (y.uuid w.drawn), record w { drawn = suc w.drawn })

  -- A call to Redis or Kafka under a fault.
  abbrev pub meet : Fault → (c : Call) → World → Answer (Reply c) × World
  meet sound c w = execute c w
  meet unsent c w = (error, w)
  meet unanswered c w = (error, (execute c w).1)

  -- The timer and the random source have no faults.
  unfoldable pub act : Fault → (c : Call) → World → Answer (Reply c) × World
  act f c w = if is_local c then execute c w else meet f c w

  -- The faults that the next calls meet; calls after the last of them are sound.
  unfoldable pub perform : (c : Call) → World × List Fault → Answer (Reply c) × (World × List Fault)
  unfolding act execute
  perform c (w, []) = let (a, w') = act sound c w in (a, (w', []))
  perform c (w, f ∷ fs) = let (a, w') = act f c w in (a, (w', fs))

  -- A method that runs with no other request in between.
  unfoldable pub alone : {A : Type 0} → Prog Call Reply A → List Fault → World → Outcome A × World
  unfolding perform
  alone m fs w = let (o, (w', rest)) = run perform m (w, fs) in (o, w')
