-- ===== src/Http/Tests.antt =====
-- Requests to a server in memory.
use redis_api.Common.{
  ◌≤◌, ◌≡◌, ◌≢◌, refl, sym, ◌∙◌, inr, true, Option, none, some, [], ◌∷◌, length, if◌then◌else◌,
}
use redis_api.Text.{Str, codes, ◌===◌}
use redis_api.Limiter.Memory.{memory, empty, Cells}
use redis_api.Limiter.{
  use_limiter, too_many_requests, next, leaky_bucket, decide, drained, level_field,
}
use redis_api.Service.World.{sound, unanswered}
use redis_api.Service.Memory.{desk, new_world}
use redis_api.Product.Sale.{emit_meets}
use redis_api.Auth.{RegisterDto}
use redis_api.Auth.Memory.{systems, quiet}
use redis_api.Auth.Controller.{entra_id}
use redis_api.Auth.Guards.{Payload, extract_roles, includes}
use redis_api.Auth.Guards as Guards
use redis_api.Http.{Request, Body, post_use_item}
use redis_api.Http.Validation.{
  text_at, register_dto, whitelisted, register_fields, register_dto-some,
}
use redis_api.Http.Pipeline.{Framework, Deployment, Site, through, guards, user_of, serve}
use redis_api.Http.Access.{
  needed_role, ruling, roles_of, decided, decision_on, guards-ruling, Refused, serve-Refused,
  Halted, decision_at, serve-Halted,
}
use redis_api.Http.Traces.{request, Served, serve-Served}

abbrev first {ℓ} : {A : Type ℓ} → Option A → Option A → Option A
first none c = c
first (some a) c = some a

-- Every token is valid, and its text is its only role.
abbrev tokens_as_roles : Str → Option Payload
tokens_as_roles token = some (record { realm_access = some (some (token ∷ [])); roles = none })

abbrev framework : Framework
framework = record {
  pick_flag = first;
  pick_roles = first;
  verify = tokens_as_roles;
  is_email = λ s. true;
  pick_flag-handler = λ b c. refl;
  pick_flag-class = λ c. refl;
  pick_roles-handler = λ r c. refl;
  pick_roles-class = λ c. refl;
}

abbrev deployment : Deployment
deployment = record {
  framework = framework;
  provider = Guards.keycloak;
  identity = entra_id;
  hashes = memory;
  market = desk;
  accounts = systems;
}

abbrev site : Site deployment
site = record {
  hashes = empty;
  market = new_world;
  auth = quiet;
  clock = 5000;
  limiter_fault = sound;
  faults = [];
}

guards-ruling_example :
    guards framework Guards.keycloak post_use_item (some (codes "product:read"))
    ≡ ruling
        (needed_role post_use_item)
        (roles_of Guards.keycloak (user_of framework Guards.keycloak (some (codes "product:read"))))
guards-ruling_example =
    guards-ruling framework Guards.keycloak post_use_item (some (codes "product:read"))

abbrev asking : Str → Request
asking role =
    request deployment (some (codes "ip")) (some role) (codes "id") [] site 999 refl
      (inr (refl, refl))

reader_refused : decided deployment (asking (codes "product:read")) ≢ through
unfolding extract_roles includes ◌===◌
reader_refused e = cc

serve-Refused_example :
    Refused deployment
      (decision_on deployment (asking (codes "product:read")) site)
      (decided deployment (asking (codes "product:read")))
      site
      (serve deployment (asking (codes "product:read")) site)
serve-Refused_example = serve-Refused deployment (asking (codes "product:read")) site reader_refused

writer_through : decided deployment (asking (codes "product:write")) ≡ through
unfolding extract_roles includes ◌===◌
writer_through = refl

bucket_open : (use_limiter memory (some (codes "ip")) 5000 empty).0 ≡ next
unfolding use_limiter leaky_bucket decide drained ◌===◌
bucket_open = refl

serve-Served_example :
    Served deployment
      (some (codes "ip"))
      (some (codes "product:write"))
      (codes "id")
      []
      site
      999
      refl
      (inr (refl, refl))
      unanswered
      (serve deployment
        (asking (codes "product:write"))
        (record site { limiter_fault = sound; faults = emit_meets unanswered }))
serve-Served_example =
    serve-Served deployment (some (codes "ip")) (some (codes "product:write")) (codes "id") [] site
      999 refl (inr (refl, refl)) unanswered bucket_open writer_through

-- A bucket that was filled at this moment.
abbrev full : Cells
full = record {
  cell = λ k f. if f === level_field then some 100_000 else some 5000;
  time = λ k. some 3000;
}

bucket_full : (use_limiter memory (some (codes "ip")) 5000 full).0 ≡ too_many_requests 100_000
unfolding use_limiter leaky_bucket decide drained ◌===◌
bucket_full = refl

abbrev crowded : Site deployment
crowded = record site { hashes = full }

crowded_halts : decision_at deployment sound (some (codes "ip")) crowded ≢ next
crowded_halts e = let same = sym bucket_full ∙ e in cc

serve-Halted_example :
    Halted deployment
      (codes "id")
      (decision_at deployment sound (some (codes "ip")) crowded)
      crowded
      (serve deployment
        (record {
          route = post_use_item;
          ip = some (codes "ip");
          correlation = some (codes "id");
          token = none;
          body = [];
        })
        (record crowded { limiter_fault = sound }))
serve-Halted_example =
    serve-Halted deployment sound post_use_item (some (codes "ip")) none (codes "id") [] crowded
      refl crowded_halts

abbrev form : Body
form =
    (codes "username", some (codes "ada"))
    ∷ (codes "password", some (codes "Password1"))
    ∷ (codes "email", some (codes "a@b.c"))
    ∷ (codes "firstName", some (codes "A"))
    ∷ (codes "lastName", some (codes "L"))
    ∷ []

abbrev ada : RegisterDto
ada = record {
  username = codes "ada";
  password = codes "Password1";
  email = codes "a@b.c";
  first_name = codes "A";
  last_name = codes "L";
}

form_valid : register_dto (λ s. true) form ≡ some ada
unfolding register_dto ◌===◌
form_valid = refl

-- A field that the DTO does not have is refused.
form_extra : register_dto (λ s. true) ((codes "role", some (codes "admin")) ∷ form) ≡ none
unfolding register_dto ◌===◌
form_extra = refl

register_dto-some_example :
    ((text_at (codes "username") form ≡ some ada.username)
      × (3 ≤ length ada.username)
      × (length ada.username ≤ 50))
    × ((text_at (codes "password") form ≡ some ada.password)
        × (8 ≤ length ada.password)
        × (length ada.password ≤ 128))
    × ((text_at (codes "email") form ≡ some ada.email) × (true ≡ true) × (length ada.email ≤ 255))
    × ((text_at (codes "firstName") form ≡ some ada.first_name) × (length ada.first_name ≤ 50))
    × ((text_at (codes "lastName") form ≡ some ada.last_name) × (length ada.last_name ≤ 50))
    × (whitelisted register_fields form ≡ true)
register_dto-some_example = register_dto-some (λ s. true) form ada form_valid
