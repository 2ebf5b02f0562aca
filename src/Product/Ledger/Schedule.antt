-- ===== src/Product/Ledger/Schedule.antt =====
-- Runs of the requests to src/product/product.controller.ts on a server and a broker in memory.
use mathlib.Core.List.{foldl}
use redis_api.Common.{◌≡◌, refl, List, [], ◌∷◌}
use redis_api.Effect.{ret, throw, call}
use redis_api.Service.{Method}
use redis_api.Service.World.{Fault}
use redis_api.Service.Memory.{desk, new_world}
use redis_api.Product.Ledger.System.{
  Request, Served, System, arrive, resume, reply, fail, Reach, here, next,
}
use redis_api.Product.Ledger.Conservation.{opening}

pub record Run : Type 0 where
  pub last : System desk
  pub reach : Reach desk (opening desk new_world) last

-- The first request goes on, its call meeting `f`.
go_on : (f : Fault) (r : Run) (l : List (Method Served)) → r.last.requests ≡ l → Run
go_on f r [] e = r
go_on f r (call c k ∷ l) e = record { last = _; reach = next r.reach (resume [] c k f l e) }
go_on f r (ret a ∷ l) e = record { last = _; reach = next r.reach (reply [] a l e) }
go_on f r (throw x ∷ l) e = record { last = _; reach = next r.reach (fail [] x l e) }

unfoldable pub turn : Run → Fault → Run
unfolding go_on
turn r f = go_on f r r.last.requests refl

-- One more request comes in, to go on first.
unfoldable pub joined : Run → Request → List Fault → Run
unfolding turn
joined r q fs = foldl turn (record { last = _; reach = next r.reach (arrive q) }) fs

unfoldable pub schedule : Request → List Fault → Run
unfolding joined
schedule q fs = joined (record { last = _; reach = here }) q fs
