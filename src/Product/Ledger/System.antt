-- ===== src/Product/Ledger/System.antt =====
-- Any number of requests to take an item, to read the stock or to reset it, over one server and one broker,
-- interleaved at every call, with any call failing.
use redis_api.Common.{ℕ, ◌+◌, ◌≡◌, ◌++◌, Option, some, List, ◌∷◌, Answer, answer, error}
use redis_api.Common.Int.{ℤ, pos}
use redis_api.Text.Decimal.{read_ℤ}
use redis_api.Redis.Server.{Value, missing, text, other}
use redis_api.Text.{Str}
use redis_api.Effect.{ret, throw, call, Exception, ◌>>=◌}
use redis_api.Service.{Call, set, emit, Reply, Method}
use redis_api.Service.World.{Systems, World, Fault, sound, unanswered, act}
use redis_api.Product.{
  UseItemReply, ResetReply, inventory_key, initial_stock, use_item, get_inventory, reset_inventory,
}

pub data Request : Type 0 where
  using : Option Str → Request
  reading resetting : Request

pub data Served : Type 0 where
  used : UseItemReply → Served
  read : Option ℤ → Served
  reset : ResetReply → Served

-- A request as it comes in: `using` with what its AsyncLocalStorage holds.
abbrev pub start : Request → Method Served
start (using correlation) = use_item correlation >>= λ r. ret (used r)
start reading = get_inventory >>= λ r. ret (read r)
start resetting = reset_inventory >>= λ r. ret (reset r)

abbrev pub items_of : Option ℤ → ℕ
items_of (some (pos n)) = n
items_of _ = 0

-- 1 where a call to Redis is rejected.
abbrev pub rejected_by : (c : Call) → Answer (Reply c) → ℕ
rejected_by (emit topic event) a = 0
rejected_by c (answer r) = 0
rejected_by c error = 1

-- 1 where the broker keeps an event, and the sender is told that it failed.
abbrev pub duplicated_by : Fault → Call → ℕ
duplicated_by unanswered (emit topic event) = 1
duplicated_by _ _ = 0

-- The items that a reset puts into stock, where its SET is carried out.
abbrev pub granted_by : Fault → Call → ℕ
granted_by sound (set k v) = initial_stock
granted_by unanswered (set k v) = initial_stock
granted_by _ _ = 0

-- The items that stand in the key of the stock; a missing key stands for the initial stock.
abbrev pub items_at : Value → ℕ
items_at missing = initial_stock
items_at (text t) = items_of (read_ℤ t)
items_at other = 0

module _ (y : Systems) where
  -- The items that a reset takes off the stock, where its SET is carried out: all that were there.
  abbrev pub withdrawn_by : Fault → Call → World y → ℕ
  withdrawn_by sound (set k v) w = items_at (y.server.value inventory_key w.redis)
  withdrawn_by unanswered (set k v) w = items_at (y.server.value inventory_key w.redis)
  withdrawn_by _ _ w = 0

  pub record System : Type 0 where
    pub world : World y
    pub requests : List (Method Served)
    pub rejections : ℕ
    pub duplicated : ℕ
    pub granted : ℕ
    pub withdrawn : ℕ

  abbrev pub resumed :
      System
      → List (Method Served)
      → (c : Call) → (Answer (Reply c) → Method Served)
      → Fault
      → List (Method Served)
      → System
  resumed s before c k f after = record {
    world = (act y f c s.world).1;
    requests = before ++ (k (act y f c s.world).0 ∷ after);
    rejections = s.rejections + rejected_by c (act y f c s.world).0;
    duplicated = s.duplicated + duplicated_by f c;
    granted = s.granted + granted_by f c;
    withdrawn = s.withdrawn + withdrawn_by f c s.world;
  }

  pub data Step (s : System) : System → Type 0 where
    arrive : (q : Request) → Step s (record s { requests = start q ∷ s.requests })
    resume :
        (before : List (Method Served)) (c : Call) (k : Answer (Reply c) → Method Served)
        (f : Fault) (after : List (Method Served))
        → s.requests ≡ before ++ (call c k ∷ after)
        → Step s (resumed s before c k f after)
    reply :
        (before : List (Method Served)) (a : Served) (after : List (Method Served))
        → s.requests ≡ before ++ (ret a ∷ after)
        → Step s (record s { requests = before ++ after })
    fail :
        (before : List (Method Served)) (e : Exception) (after : List (Method Served))
        → s.requests ≡ before ++ (throw e ∷ after)
        → Step s (record s { requests = before ++ after })
    elapse :
        (d : ℕ)
        → Step s (record s { world = record s.world { redis = y.server.pass d s.world.redis } })

  pub data Reach (s : System) : System → Type 0 where
    here : Reach s s
    next : {t u : System} → Reach s t → Step t u → Reach s u
