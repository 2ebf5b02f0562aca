-- ===== src/Service/Memory.antt =====
-- A server, a broker and a random source in memory, on which the theorems are applied.
use redis_api.Common.{refl, List, [], ◌∷◌, ◌++◌}
use redis_api.Text.{codes}
use redis_api.Text.Decimal.{show}
use redis_api.Redis.Memory.{memory, fresh}
use redis_api.Service.{InventoryEvent}
use redis_api.Service.World.{Broker, Systems, World}

abbrev pub topic_list : Broker
topic_list = record {
  State = List InventoryEvent;
  delivered = λ s. s;
  send = λ topic e s. s ++ e ∷ [];
  delivered-send = λ topic e s. refl;
}

abbrev pub desk : Systems
desk = record { server = memory; broker = topic_list; uuid = λ n. codes "token-" ++ show n }

-- Nothing is stored and nothing published.
abbrev pub new_world : World desk
new_world = record { redis = fresh; kafka = []; drawn = 0 }
