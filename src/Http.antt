-- ===== src/Http.antt =====
-- Requests to the HTTP server: its routes with their decorators (src/app.controller.ts,
-- src/product/product.controller.ts, src/auth/auth.controller.ts, src/auth/decorators), and what
-- runs before a handler, in the order of NestJS: the middleware of src/common and of
-- src/redis, the guards of src/app.module.ts, the validation that src/main.ts sets up.
pub mod Validation
pub mod Pipeline
pub mod Access
pub mod Traces
mod Tests
use redis_api.Common.{ℕ, Bool, true, false, Option, none, some, List, [], ◌∷◌}
use redis_api.Text.{Str, codes}

pub data Route : Type 0 where
  get_ping post_login post_register post_use_item get_stock delete_stock : Route

-- A JSON object by its keys; `none` is a value that is no string.
abbrev pub Body : Type 0
Body = List (Str × Option Str)

pub record Request : Type 0 where
  pub route : Route
  pub ip : Option Str
  -- the header `x-correlation-id`
  pub correlation : Option Str
  -- the token of the header `Authorization`
  pub token : Option Str
  pub body : Body

-- `@Public()` on the handler, and on its class
abbrev pub handler_public : Route → Option Bool
handler_public get_ping = some true
handler_public _ = none

abbrev pub class_public : Route → Option Bool
class_public post_login = some true
class_public post_register = some true
class_public _ = none

-- `@Roles(…)` on the handler; no class has it.
abbrev pub handler_roles : Route → Option (List Str)
handler_roles post_use_item = some (codes "product:write" ∷ [])
handler_roles get_stock = some (codes "product:read" ∷ [])
handler_roles delete_stock = some (codes "product:admin" ∷ [])
handler_roles _ = none

-- `consumer.apply(RateLimiterMiddleware).forRoutes(…)` of AuthModule and ProductModule
abbrev pub is_limited : Route → Bool
is_limited get_ping = false
is_limited _ = true

-- The status of a handler that returns: 201 for a POST, 200 for the others, and what `@HttpCode`
-- says.
abbrev pub success_status : Route → ℕ
success_status post_use_item = 201
success_status post_register = 201
success_status _ = 200
