-- ===== src/Http/Access.antt =====
-- Who reaches which handler of the HTTP server.
use mathlib.Core.Path.{subst}
use redis_api.Common.{
  Bool-cases, ◌∙◌, ℕ, ◌≡◌, ◌≢◌, inl, inr, refl, ap, true, Option, none, some, List, [], ◌∷◌, arith,
  if◌then◌else◌,
}
use redis_api.Text.{Str, codes}
use redis_api.Service.World.{Fault, sound, unsent, unanswered}
use redis_api.Limiter.{Decision, next, too_many_requests, unavailable, use_limiter}
use redis_api.Auth.Guards.{Payload, Provider, extract_roles, includes, roles_guard, jwt_guard}
use redis_api.Http.{
  Route, get_ping, post_login, post_register, post_use_item, get_stock, delete_stock, Request, Body,
  is_limited,
}
use redis_api.Http.Pipeline.{
  Framework, Reply, Verdict, through, unauthorized, forbidden, broken, user_of, is_user,
  roles_stage, guards, Deployment, Site, meet_limiter, level, denied, correlate, limit, admit,
  limited, serve,
}

-- The role that a route asks for, by the descriptions of its replies in the API documentation.
abbrev pub needed_role : Route → Option Str
needed_role post_use_item = some (codes "product:write")
needed_role get_stock = some (codes "product:read")
needed_role delete_stock = some (codes "product:admin")
needed_role _ = none

-- What a caller with these roles may do: `none` is a caller without a valid token.
abbrev pub ruling : Option Str → Option (List Str) → Verdict
ruling none caller = through
ruling (some role) none = unauthorized
ruling (some role) (some roles) = if includes roles role then through else forbidden

abbrev pub roles_of : Provider → Option Payload → Option (List Str)
roles_of provider none = none
roles_of provider (some u) = some (extract_roles provider u)

module _ (fw : Framework) (provider : Provider) where
  one_role :
      (role : Str) (user : Option Payload)
      → (if is_user fw provider user
          then roles_stage fw provider (some (role ∷ [])) user
          else unauthorized)
        ≡ ruling (some role) (roles_of provider user)
  unfolding roles_stage roles_guard
  one_role role none = refl
  one_role role (some u) = ground arith

  -- On every route and for every token, the two guards with the decorators of the handlers decide by one
  -- role for each route, `product:write` to take an item, `product:read` to read the stock and
  -- `product:admin` to reset it: 401 without a valid token, 403 where its roles lack that one, and else
  -- through; and always through on the other routes, whatever the token.
  pub guards-ruling :
      (route : Route) (token : Option Str)
      → guards fw provider route token
        ≡ ruling (needed_role route) (roles_of provider (user_of fw provider token))
  unfolding guards jwt_guard roles_stage
  guards-ruling get_ping token = rw (fw.pick_flag-handler true none, fw.pick_roles-class none) refl
  guards-ruling post_login token =
      rw (fw.pick_flag-class (some true), fw.pick_roles-class none) refl
  guards-ruling post_register token =
      rw (fw.pick_flag-class (some true), fw.pick_roles-class none) refl
  guards-ruling post_use_item token =
      rw (fw.pick_flag-class none, fw.pick_roles-handler (codes "product:write" ∷ []) none)
        (one_role (codes "product:write") _)
  guards-ruling get_stock token =
      rw (fw.pick_flag-class none, fw.pick_roles-handler (codes "product:read" ∷ []) none)
        (one_role (codes "product:read") _)
  guards-ruling delete_stock token =
      rw (fw.pick_flag-class none, fw.pick_roles-handler (codes "product:admin" ∷ []) none)
        (one_role (codes "product:admin") _)

abbrev pub verdict_status : Verdict → ℕ
verdict_status unauthorized = 401
verdict_status forbidden = 403
verdict_status through = 200
verdict_status broken = 500

module _ (d : Deployment) where
  -- The stock, the events and the accounts are as they were.
  abbrev pub Spared : Site d → Site d → Type 0
  Spared s s' =
      (s'.market.redis ≡ s.market.redis) × (s'.market.kafka ≡ s.market.kafka) × (s'.auth ≡ s.auth)

  correlate-Spared : (c : Option Str) (s : Site d) → Spared s (correlate d c s).1
  unfolding correlate
  correlate-Spared none s = (refl, refl, refl)
  correlate-Spared (some id) s = (refl, refl, refl)

  limit-Spared : (req : Request) (s0 s : Site d) → Spared s0 s → Spared s0 (limit d req s).1
  unfolding limit
  limit-Spared req s0 s h = ground arith

  -- What the limiter decides where its call meets the fault.
  abbrev pub decision_at : Fault → Option Str → Site d → Decision
  decision_at sound ip s = (use_limiter d.hashes ip s.clock s.hashes).0
  decision_at unsent ip s = unavailable
  decision_at unanswered ip s = unavailable

  -- What the limiter decides on a request, if it is asked.
  abbrev pub decision_on : Request → Site d → Decision
  decision_on req s = if is_limited req.route then decision_at s.limiter_fault req.ip s else next

  -- The status of a refusal, from what the limiter decided and what the roles do.
  abbrev pub refusal_status : Decision → Verdict → ℕ
  refusal_status (too_many_requests l) v = 429
  refusal_status unavailable v = 500
  refusal_status next v = verdict_status v

  abbrev pub Refused : Decision → Verdict → Site d → Reply × Site d → Type 0
  Refused x v s (r, s') = (r.status ≡ refusal_status x v) × Spared s s'

  admit-Refused :
      (req : Request) (id : Str) (s0 s : Site d) (v : Verdict)
      → v ≢ through
      → Spared s0 s
      → Refused next v s0 (admit d req id s v)
  admit-Refused req id s0 s through ne h = absurd (ne refl)
  admit-Refused req id s0 s unauthorized ne h = (refl, h)
  admit-Refused req id s0 s forbidden ne h = (refl, h)
  admit-Refused req id s0 s broken ne h = (refl, h)

  abbrev pub decided : Request → Verdict
  decided req =
      ruling (needed_role req.route)
        (roles_of d.provider (user_of d.framework d.provider req.token))

  limited-Refused :
      (req : Request) (id : Str) (s0 : Site d) (x : Decision × Site d)
      → decided req ≢ through
      → Spared s0 x.1
      → Refused x.0 (decided req) s0 (limited d req id x)
  limited-Refused req id s0 (too_many_requests l, s) ne h = (refl, h)
  limited-Refused req id s0 (unavailable, s) ne h = (refl, h)
  limited-Refused req id s0 (next, s) ne h =
      rw (guards-ruling d.framework d.provider req.route req.token)
        (admit-Refused req id s0 s (decided req) ne h)

  decided-meets :
      (f : Fault) (ip : Option Str) (s : Site d)
      → (meet_limiter d f (use_limiter d.hashes ip s.clock s.hashes) s.hashes).0
        ≡ decision_at f ip s
  decided-meets sound ip s = refl
  decided-meets unsent ip s = refl
  decided-meets unanswered ip s = refl

  limit-decision : (req : Request) (s : Site d) → (limit d req s).0 ≡ decision_on req s
  unfolding limit
  limit-decision req s = elim (Bool-cases (is_limited req.route)) [
    | inl on ↦ rw on (decided-meets s.limiter_fault req.ip s)
    | inr off ↦ rw off refl
  ]

  correlate-decision_at :
      (f : Fault) (ip c : Option Str) (s : Site d)
      → decision_at f ip (correlate d c s).1 ≡ decision_at f ip s
  unfolding correlate
  correlate-decision_at sound ip none s = refl
  correlate-decision_at sound ip (some id) s = refl
  correlate-decision_at unsent ip c s = refl
  correlate-decision_at unanswered ip c s = refl

  correlate-decision :
      (req : Request) (c : Option Str) (s : Site d)
      → decision_on req (correlate d c s).1 ≡ decision_on req s
  unfolding correlate
  correlate-decision req none s =
      ap (λ x. if is_limited req.route then x else next)
        (correlate-decision_at s.limiter_fault req.ip none s)
  correlate-decision req (some id) s = refl

  -- A request to a route that asks for a role, from a caller without a valid token or whose token has not
  -- that role, changes neither the stock nor the events nor the accounts. Where the route is limited and
  -- the limiter finds the bucket full, it is answered 429, and where its call fails, 500; else, 401 where
  -- there is no valid token, and 403 where there is one.
  pub serve-Refused :
      (req : Request) (s : Site d)
      → decided req ≢ through
      → Refused (decision_on req s) (decided req) s (serve d req s)
  unfolding serve
  serve-Refused req s ne =
      let s1 = (correlate d req.correlation s).1 in
      let id = (correlate d req.correlation s).0 in
      subst (λ x. Refused x (decided req) s (limited d req id (limit d req s1)))
        (limit-decision req s1 ∙ correlate-decision req req.correlation s)
        (limited-Refused req id s (limit d req s1) ne
          (limit-Spared req s s1 (correlate-Spared req.correlation s)))

  -- The reply to a request that the limiter does not let through.
  abbrev halted : Str → Decision → Reply
  halted id (too_many_requests l) = record { status = 429; correlation = id; content = level l }
  halted id _ = record { status = 500; correlation = id; content = denied }

  abbrev pub Halted : Str → Decision → Site d → Reply × Site d → Type 0
  Halted id x s (r, s') = (r ≡ halted id x) × Spared s s'

  limited-Halted :
      (req : Request) (id : Str) (s0 : Site d) (x : Decision × Site d)
      → x.0 ≢ next
      → Spared s0 x.1
      → Halted id x.0 s0 (limited d req id x)
  limited-Halted req id s0 (too_many_requests m, s) ne h = (refl, h)
  limited-Halted req id s0 (unavailable, s) ne h = (refl, h)
  limited-Halted req id s0 (next, s) ne h = absurd (ne refl)

  -- A request that the limiter does not let through is answered with its own correlation id, whoever
  -- sends it: 429 with the level, where the bucket is full, and 500, where the call of the limiter to
  -- Redis fails. No guard and no handler runs, and neither the stock nor the events nor the accounts
  -- change.
  pub serve-Halted :
      (f : Fault) (route : Route) (ip token : Option Str) (id : Str) (body : Body) (s : Site d)
      → is_limited route ≡ true
      → decision_at f ip s ≢ next
      → Halted id (decision_at f ip s) s (
          serve d
            (record { route = route; ip = ip; correlation = some id; token = token; body = body })
            (record s { limiter_fault = f }))
  unfolding serve correlate limit
  serve-Halted sound route ip token id body s on over = rw on (
      limited-Halted
        (record { route = route; ip = ip; correlation = some id; token = token; body = body }) id s
        (
          _,
          record s { limiter_fault = sound; hashes = (use_limiter d.hashes ip s.clock s.hashes).1 },
        )
        over (refl, refl, refl))
  serve-Halted unsent route ip token id body s on over = rw on (refl, (refl, refl, refl))
  serve-Halted unanswered route ip token id body s on over = rw on (refl, (refl, refl, refl))
