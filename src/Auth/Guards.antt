-- ===== src/Auth/Guards.antt =====
-- src/auth/guards and the role extraction of src/auth/providers. What the Reflector of NestJS finds
-- on the handler or its class is an argument, and so is what passport makes of the token.
use redis_api.Common.{
  ◌≡◌, ◌↔◌, ◌⊎◌, refl, ◌||◌, Bool, true, false, Option, none, some, List, [], ◌∷◌, All, all, arith,
}
use redis_api.Text.{Str, ◌===◌, ===_iff}

-- The fields of a decoded token that the providers read; `realm_access` may lack `roles`.
pub record Payload : Type 0 where
  pub realm_access : Option (Option (List Str))
  pub roles : Option (List Str)

pub data Provider : Type 0 where
  keycloak entra_id : Provider

abbrev pub or_none : Option (List Str) → List Str
or_none none = []
or_none (some rs) = rs

-- `realmAccess?.roles`
abbrev pub roles_of : Option (Option (List Str)) → Option (List Str)
roles_of none = none
roles_of (some rs) = rs

-- `extractRoles`
unfoldable pub extract_roles : Provider → Payload → List Str
extract_roles keycloak payload = or_none (roles_of payload.realm_access)
extract_roles entra_id payload = or_none payload.roles

-- `userRoles.includes(role)`
unfoldable pub includes : List Str → Str → Bool
includes [] role = false
includes (r ∷ rs) role = r === role || includes rs role

-- RolesGuard.canActivate
unfoldable pub roles_guard : Provider → Option (List Str) → Payload → Bool
unfolding includes
roles_guard provider none user = true
roles_guard provider (some []) user = true
roles_guard provider (some required) user =
    all (λ role. includes (extract_roles provider user) role) required

-- JwtAuthGuard.canActivate; `passport` is the answer of the guard of passport-jwt.
unfoldable pub jwt_guard : Option Bool → Bool → Bool
jwt_guard (some true) passport = true
jwt_guard _ passport = passport

abbrev pub Has : List Str → Str → Type 0
Has [] role = ⊥
Has (r ∷ rs) role = (r ≡ role) ⊎ Has rs role

includes-Has : (rs : List Str) (role : Str) → includes rs role ≡ true → Has rs role
unfolding includes
includes-Has [] role h = cc
includes-Has (r ∷ rs) role h = ground (arith, ===_iff r role, includes-Has rs role)

Has-includes : (rs : List Str) (role : Str) → Has rs role → includes rs role ≡ true
unfolding includes
Has-includes [] role h = absurd h
Has-includes (r ∷ rs) role h = ground (arith, ===_iff r role, Has-includes rs role)

all-Has :
    (rs required : List Str)
    → all (λ role. includes rs role) required ≡ true
    → All (Has rs) required
all-Has rs [] h = tt
all-Has rs (q ∷ qs) h = (includes-Has rs q (ground arith), all-Has rs qs (ground arith))

Has-all :
    (rs required : List Str)
    → All (Has rs) required
    → all (λ role. includes rs role) required ≡ true
Has-all rs [] h = refl
Has-all rs (q ∷ qs) (here, more) = ground (arith, Has-includes rs q here, Has-all rs qs more)

-- The guard lets a token through exactly when the roles that its provider reads from it contain
-- every role that the handler requires.
roles_guard_iff :
    (provider : Provider) (required : List Str) (user : Payload)
    → (roles_guard provider (some required) user ≡ true)
      ↔ All (Has (extract_roles provider user)) required
unfolding roles_guard
roles_guard_iff provider [] user = (λ h. tt, λ h. refl)
roles_guard_iff provider (q ∷ qs) user =
    (all-Has (extract_roles provider user) (q ∷ qs), Has-all (extract_roles provider user) (q ∷ qs))
