-- ===== src/Http/Pipeline.antt =====
-- One request from its arrival to its reply: CorrelationIdMiddleware of
-- src/common/correlation-id.middleware.ts, RateLimiterMiddleware, JwtAuthGuard, RolesGuard, the
-- validation, and the handler. The calls of a request to Redis and Kafka meet the faults that its
-- `Site` holds.
use redis_api.Common.{
  ℕ, suc, ◌≡◌, Bool, true, false, Option, none, some, List, [], ◌∷◌, if◌then◌else◌,
}
use redis_api.Common.Int.{ℤ}
use redis_api.Text.{Str}
use redis_api.Effect.{Exception, rejected, http, Outcome, returned, thrown}
use redis_api.Limiter.HashServer.{Hashes}
use redis_api.Limiter.{Decision, next, too_many_requests, unavailable, use_limiter}
use redis_api.Service.World as Market
use redis_api.Product.{UseItemReply, ResetReply, use_item, get_inventory, reset_inventory}
use redis_api.Auth.World as AuthWorld
use redis_api.Auth.{RegisterDto}
use redis_api.Auth.Keycloak.{LoginResponse}
use redis_api.Auth.Controller.{Identity, identity_login, register}
use redis_api.Auth.Guards.{Payload, Provider, roles_guard, jwt_guard}
use redis_api.Http.{
  Route, get_ping, post_login, post_register, post_use_item, get_stock, delete_stock, Request, Body,
  handler_public, class_public, handler_roles, is_limited, success_status,
}
use redis_api.Http.Validation.{LoginDto, login_dto, register_dto}

-- What is not code of the repository: the Reflector of NestJS, which looks up metadata on the handler
-- first and then on its class; passport, which makes the payload of a valid token; `IsEmail`.
pub record Framework : Type 0 where
  pub pick_flag : Option Bool → Option Bool → Option Bool
  pub pick_roles : Option (List Str) → Option (List Str) → Option (List Str)
  pub verify : Str → Option Payload
  pub is_email : Str → Bool
  pub pick_flag-handler : (b : Bool) (c : Option Bool) → pick_flag (some b) c ≡ some b
  pub pick_flag-class : (c : Option Bool) → pick_flag none c ≡ c
  pub pick_roles-handler : (r : List Str) (c : Option (List Str)) → pick_roles (some r) c ≡ some r
  pub pick_roles-class : (c : Option (List Str)) → pick_roles none c ≡ c

pub data Content : Type 0 where
  pong denied : Content
  level : ℕ → Content
  tokens : LoginResponse → Content
  message : Str → Content
  used : UseItemReply → Content
  stock : Option ℤ → Content
  reset : ResetReply → Content

pub record Reply : Type 0 where
  pub status : ℕ
  -- the header `x-correlation-id`
  pub correlation : Str
  pub content : Content

-- What the guards decide: on to the handler, 401, 403, or an exception of their own.
pub data Verdict : Type 0 where
  through unauthorized forbidden broken : Verdict

-- An exception that reaches the filter of NestJS; one that is no HttpException becomes a 500.
abbrev pub status_of : Exception → ℕ
status_of rejected = 500
status_of (http n m) = n

abbrev pub replied : {A : Type 0} → Route → Str → (A → Content) → Outcome A → Reply
replied route id content (returned a) = record {
  status = success_status route;
  correlation = id;
  content = content a;
}
replied route id content (thrown e) = record {
  status = status_of e;
  correlation = id;
  content = denied;
}

abbrev pub refuse : ℕ → Str → Content → Reply
refuse status id content = record { status = status; correlation = id; content = content }

module _ (fw : Framework) (provider : Provider) where
  -- The payload that passport puts on the request, if there is a valid token.
  abbrev pub user_of : Option Str → Option Payload
  user_of none = none
  user_of (some token) = fw.verify token

  abbrev pub is_user : Option Payload → Bool
  is_user none = false
  is_user (some u) = true

  -- RolesGuard; to read roles where there is no user is a TypeError.
  unfoldable pub roles_stage : Option (List Str) → Option Payload → Verdict
  roles_stage none user = through
  roles_stage (some []) user = through
  roles_stage (some (q ∷ qs)) none = broken
  roles_stage (some (q ∷ qs)) (some u) =
      if roles_guard provider (some (q ∷ qs)) u then through else forbidden

  -- The guards of APP_GUARD, in their order.
  unfoldable pub guards : Route → Option Str → Verdict
  unfolding roles_stage
  guards route token =
      if jwt_guard (fw.pick_flag (handler_public route) (class_public route))
        (is_user (user_of token))
      then roles_stage (fw.pick_roles (handler_roles route) none) (user_of token)
      else unauthorized

-- A server with what it is connected to.
pub record Deployment : Type 1 where
  pub framework : Framework
  pub provider : Provider
  pub identity : Identity
  pub hashes : Hashes
  pub market : Market.Systems
  pub accounts : AuthWorld.Systems

module _ (d : Deployment) where
  pub record Site : Type 0 where
    pub hashes : d.hashes.State
    pub market : Market.World d.market
    pub auth : AuthWorld.World d.accounts
    pub clock : ℕ
    -- how the call of the limiter goes, and then those of the handler
    pub limiter_fault : Market.Fault
    pub faults : List Market.Fault

  -- `req.headers[CORRELATION_ID_HEADER] ?? randomUUID()`
  unfoldable pub correlate : Option Str → Site → Str × Site
  correlate (some id) s = (id, s)
  correlate none s = (
    d.market.uuid s.market.drawn,
    record s { market = record s.market { drawn = suc s.market.drawn } },
  )

  -- RateLimiterMiddleware.use, where its call meets the fault: without an answer it throws.
  abbrev pub meet_limiter :
      Market.Fault → Decision × d.hashes.State → d.hashes.State → Decision × d.hashes.State
  meet_limiter Market.sound x hashes = x
  meet_limiter Market.unsent x hashes = (unavailable, hashes)
  meet_limiter Market.unanswered (decision, hashes') hashes = (unavailable, hashes')

  -- The middleware of the module that the route belongs to.
  unfoldable pub limit : Request → Site → Decision × Site
  limit req s =
      if is_limited req.route
      then (let (decision, hashes) =
            meet_limiter s.limiter_fault (use_limiter d.hashes req.ip s.clock s.hashes) s.hashes in
          (decision, record s { hashes = hashes }))
      else (next, s)

  abbrev pub to_market :
      {A : Type 0}
      → Route
      → Str
      → (A → Content)
      → Site
      → Outcome A × Market.World d.market
      → Reply × Site
  to_market route id content s (o, w) = (replied route id content o, record s { market = w })

  abbrev pub to_auth :
      {A : Type 0}
      → Route
      → Str
      → (A → Content)
      → Site
      → Outcome A × AuthWorld.World d.accounts
      → Reply × Site
  to_auth route id content s (o, w) = (replied route id content o, record s { auth = w })

  -- The handlers with a body, once it was validated; 400 where it was not.
  abbrev pub login_with : Str → Option LoginDto → Site → Reply × Site
  login_with id none s = (refuse 400 id denied, s)
  login_with id (some dto) s =
      to_auth post_login id tokens s
        (AuthWorld.alone d.accounts (identity_login d.identity dto.username dto.password) s.auth)

  abbrev pub register_with : Str → Option RegisterDto → Site → Reply × Site
  register_with id none s = (refuse 400 id denied, s)
  register_with id (some dto) s =
      to_auth post_register id message s
        (AuthWorld.alone d.accounts (register d.identity dto) s.auth)

  -- The handler of the route, with the body validated, inside the storage of the correlation id.
  unfoldable pub handle : Route → Str → Body → Site → Reply × Site
  handle get_ping id body s = (refuse 200 id pong, s)
  handle post_login id body s = login_with id (login_dto body) s
  handle post_register id body s = register_with id (register_dto d.framework.is_email body) s
  handle post_use_item id body s =
      to_market post_use_item id used s
        (Market.alone d.market (use_item (some id)) s.faults s.market)
  handle get_stock id body s =
      to_market get_stock id stock s (Market.alone d.market get_inventory s.faults s.market)
  handle delete_stock id body s =
      to_market delete_stock id reset s (Market.alone d.market reset_inventory s.faults s.market)

  -- On from the guards.
  abbrev pub admit : Request → Str → Site → Verdict → Reply × Site
  admit req id s through = handle req.route id req.body s
  admit req id s unauthorized = (refuse 401 id denied, s)
  admit req id s forbidden = (refuse 403 id denied, s)
  admit req id s broken = (refuse 500 id denied, s)

  -- On from the limiter.
  abbrev pub limited : Request → Str → Decision × Site → Reply × Site
  limited req id (next, s) = admit req id s (guards d.framework d.provider req.route req.token)
  limited req id (too_many_requests l, s) = (refuse 429 id (level l), s)
  limited req id (unavailable, s) = (refuse 500 id denied, s)

  unfoldable pub serve : Request → Site → Reply × Site
  unfolding correlate limit guards handle
  serve req s = let (id, s') = correlate req.correlation s in limited req id (limit req s')
