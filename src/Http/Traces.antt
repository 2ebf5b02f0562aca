-- ===== src/Http/Traces.antt =====
-- A sale from the request to the event: the id of the request, src/common/correlation-id.middleware.ts,
-- is the one in the reply and in the event that src/product/product.controller.ts publishes.
use redis_api.Common.{ℕ, suc, ◌≡◌, refl, ap, Option, some, [], ◌∷◌}
use redis_api.Text.{Str}
use redis_api.Effect.{Outcome}
use redis_api.Redis.Server.{missing}
use redis_api.Redis.Inventory.{Counts}
use redis_api.Limiter.{Decision, next, too_many_requests, unavailable, use_limiter}
use redis_api.Service.World.{World, Fault, sound, unsent, unanswered}
use redis_api.Product.{UseItemReply, inventory_key, lock_key, initial_stock}
use redis_api.Product.Sale.{Ended, Leaves, event, reply, emit_meets, use_item-Ended}
use redis_api.Http.{Request, Body, post_use_item}
use redis_api.Http.Pipeline.{
  Deployment, Site, Reply, through, used, denied, replied, to_market, guards, limited, admit, limit,
  correlate, handle, serve,
}
use redis_api.Http.Access.{decided, guards-ruling}

module _ (d : Deployment) where
  limited-next :
      (req : Request) (id : Str) (x : Decision × Site d)
      → x.0 ≡ next
      → limited d req id x ≡ admit d req id x.1 (guards d.framework d.provider req.route req.token)
  limited-next req id (next, s) e = refl
  limited-next req id (too_many_requests l, s) e = cc
  limited-next req id (unavailable, s) e = cc

module _ (d : Deployment) (ip token : Option Str) (id : Str) (body : Body) (s : Site d) (n : ℕ)
    (free : d.market.server.value lock_key s.market.redis ≡ missing)
    (stock : Counts d.market.server inventory_key initial_stock (suc n) s.market.redis) where
  abbrev pub request : Request
  request = record {
    route = post_use_item;
    ip = ip;
    correlation = some id;
    token = token;
    body = body;
  }

  -- The reply and what is left behind, where the emit meets the fault.
  abbrev pub Served : Fault → Reply × Site d → Type 0
  Served sound (r, s') =
      (r ≡ record {
        status = 201;
        correlation = id;
        content = used (reply d.market id n s.market free stock);
      })
      × Leaves d.market id n s.market free stock n (event d.market id n s.market free stock ∷ [])
          s'.market
  Served unsent (r, s') =
      (r ≡ record { status = 503; correlation = id; content = denied })
      × Leaves d.market id n s.market free stock (suc n) [] s'.market
  Served unanswered (r, s') =
      (r ≡ record { status = 503; correlation = id; content = denied })
      × Leaves d.market id n s.market free stock (suc n)
          (event d.market id n s.market free stock ∷ []) s'.market

  -- The handler's outcome as a reply.
  replied-Served :
      (f : Fault) (s' : Site d) (x : Outcome UseItemReply × World d.market)
      → Ended d.market id n s.market free stock f x
      → Served f (to_market d post_use_item id used s' x)
  replied-Served sound s' (o, w) (e, l) = (ap (replied post_use_item id used) e, l)
  replied-Served unsent s' (o, w) ((m, e), l) = (ap (replied post_use_item id used) e, l)
  replied-Served unanswered s' (o, w) ((m, e), l) = (ap (replied post_use_item id used) e, l)

  -- A request to take an item that the limiter and the guards let through, with the lock free and
  -- n + 1 items in stock, while no other request runs and at most its emit fails: it is answered 201
  -- with n remaining where the emit is answered, and else 503 with the item put back. The reply and
  -- the event both carry the correlation id of the request.
  pub serve-Served :
      (f : Fault)
      → (use_limiter d.hashes ip s.clock s.hashes).0 ≡ next
      → decided d request ≡ through
      → Served f (serve d request (record s { limiter_fault = sound; faults = emit_meets f }))
  unfolding serve correlate limit handle
  serve-Served f free_bucket trusted =
      rw
        (
          limited-next d request id
              (
                (use_limiter d.hashes ip s.clock s.hashes).0,
                record s {
                  limiter_fault = sound;
                  faults = emit_meets f;
                  hashes = (use_limiter d.hashes ip s.clock s.hashes).1;
                },
              )
              free_bucket,
          guards-ruling d.framework d.provider post_use_item token,
          trusted,
        )
        (replied-Served f
          (record s {
            limiter_fault = sound;
            faults = emit_meets f;
            hashes = (use_limiter d.hashes ip s.clock s.hashes).1;
          })
          _ (use_item-Ended d.market id n s.market free stock f))
