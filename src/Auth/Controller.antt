-- ===== src/Auth/Controller.antt =====
-- AuthController of src/auth/auth.controller.ts, over the identity service that AUTH_PROVIDER_TYPE
-- selects in src/auth/auth.module.ts.
pub mod Registration
pub mod Filter
pub mod Taken
pub mod Race
use redis_api.Common.{ℕ, Bool, Option, none, some, if◌then◌else◌}
use redis_api.Text.{Str, codes, ◌===◌}
use redis_api.Effect.{ret, throw, http, ◌>>=◌, ◌>>◌}
use redis_api.Auth.{RegisterDto, Method}
use redis_api.Auth.Bloom.{might_exist, add}
use redis_api.Auth.Keycloak.{Config, LoginResponse, login, register_user, conflict, taken_message}

-- The classes that implement IIdentityService
pub data Identity : Type 0 where
  keycloak : Config → Identity
  entra_id : Identity

-- The factory of IDENTITY_SERVICE: `config.get('AUTH_PROVIDER_TYPE') === 'entra-id'`
unfoldable pub select_identity : Option Str → Config → Identity
select_identity none config = keycloak config
select_identity (some kind) config = if kind === codes "entra-id" then entra_id else keycloak config

abbrev pub not_implemented : ℕ
not_implemented = 501

abbrev pub identity_login : Identity → Str → Str → Method LoginResponse
identity_login (keycloak config) username password = login config username password
identity_login entra_id username password =
    throw (http not_implemented (codes "Entra ID login not yet implemented"))

abbrev pub identity_register : Identity → RegisterDto → Method (Unit {0})
identity_register (keycloak config) dto = register_user config dto
identity_register entra_id dto =
    throw (http not_implemented (codes "Entra ID registration not yet implemented"))

-- POST /auth/register once the filter has denied the username
unfoldable pub register_new : Identity → RegisterDto → Method Str
register_new identity dto = do
  identity_register identity dto
  add dto.username
  ret (codes "User registered successfully")

abbrev pub after_filter : Identity → RegisterDto → Bool → Method Str
after_filter identity dto likely =
    if likely then throw (http conflict (taken_message dto.username)) else register_new identity dto

-- POST /auth/register
unfoldable pub register : Identity → RegisterDto → Method Str
unfolding register_new
register identity dto = do likely ← might_exist dto.username; after_filter identity dto likely
