-- ===== src/Auth/Keycloak.antt =====
-- KeycloakIdentityService of src/auth/services/keycloak-identity.service.ts.
pub mod Token
pub mod Users
use redis_api.Common.{
  ℕ, ◌+◌, ◌*◌, ◌++◌, ◌||◌, Option, none, some, [], ◌∷◌, ltb, ◌==◌, if◌then◌else◌,
}
use redis_api.Text.{Str, codes}
use redis_api.Effect.{ret, throw, http, request, settle, ◌>>=◌, ◌>>◌}
use redis_api.Auth.{
  RegisterDto, Body, no_body, form, user_body, role_body, HttpRequest, ok, AdminToken, fetch, now,
  read_token, write_token, Method,
}

-- The settings that `getOrThrow` reads; each has a default or is required at start.
pub record Config : Type 0 where
  pub base_url : Str
  pub realm : Str
  pub login_client_id : Str
  pub admin_client_id : Str
  pub admin_client_secret : Str

-- LoginResponse
pub record LoginResponse : Type 0 where
  pub access_token : Str
  pub refresh_token : Str
  pub expires_in : ℕ
  pub token_type : Str

abbrev pub unauthorized : ℕ
unauthorized = 401

abbrev pub conflict : ℕ
conflict = 409

abbrev pub internal_error : ℕ
internal_error = 500

abbrev pub post : Str → Option Str → Body → HttpRequest
post url bearer body = record { verb = codes "POST"; url = url; bearer = bearer; body = body }

abbrev pub get : Str → Option Str → HttpRequest
get url bearer = record { verb = codes "GET"; url = url; bearer = bearer; body = no_body }

-- `location.split('/').pop()`: what stands behind the last slash.
unfoldable pub last_segment : Str → Str → Str
last_segment current [] = current
last_segment current (c ∷ s) = last_segment (if c == b'/' then [] else current ++ c ∷ []) s

abbrev pub or_empty : Option Str → Str
or_empty none = []
or_empty (some s) = s

-- `Username '…' is already taken`
abbrev pub taken_message : Str → Str
taken_message username = codes "Username '" ++ username ++ codes "' is already taken"

module _ (config : Config) where
  abbrev pub token_url : Str
  token_url =
      config.base_url ++ codes "/realms/" ++ config.realm ++ codes "/protocol/openid-connect/token"

  abbrev pub admin_url : Str
  admin_url = config.base_url ++ codes "/admin/realms/" ++ config.realm

  unfoldable pub login : Str → Str → Method LoginResponse
  login username password = do
    res ← request (
        fetch (
          post token_url none (
            form (
              (codes "grant_type", codes "password")
              ∷ (codes "client_id", config.login_client_id)
              ∷ (codes "username", username)
              ∷ (codes "password", password)
              ∷ []))))
    if res.status == 401 || res.status == 400
        then throw (http unauthorized (codes "Invalid username or password"))
        else if ok res
        then (do
          body ← settle res.json
          ret (record {
            access_token = body.access_token;
            refresh_token = body.refresh_token;
            expires_in = body.expires_in;
            token_type = body.token_type;
          }))
        else throw (http internal_error (codes "Authentication service error"))

  -- `getAdminToken` once the cached token is absent or about to expire
  unfoldable pub renew_token : ℕ → Method Str
  renew_token time = do
    res ← request (
        fetch (
          post token_url none (
            form (
              (codes "grant_type", codes "client_credentials")
              ∷ (codes "client_id", config.admin_client_id)
              ∷ (codes "client_secret", config.admin_client_secret)
              ∷ []))))
    if ok res
        then (do
          body ← settle res.json
          request (
              write_token
                (record { value = body.access_token; expires_at = time + body.expires_in * 1000 }))
          ret body.access_token)
        else throw (http internal_error (codes "Authentication service error"))

  -- `this.adminToken && this.adminToken.expiresAt > now + 10_000`
  abbrev pub cached_or : ℕ → Option AdminToken → Method Str → Method Str
  cached_or time none renew = renew
  cached_or time (some t) renew = if ltb (time + 10_000) t.expires_at then ret t.value else renew

  unfoldable pub get_admin_token : Method Str
  unfolding renew_token
  get_admin_token = do
    time ← request now
    cached ← request read_token
    cached_or time cached (renew_token time)

  abbrev pub user_id_or_throw : Str → Method Str
  user_id_or_throw [] = throw (http internal_error (codes "Could not determine new user ID"))
  user_id_or_throw (c ∷ s) = ret (c ∷ s)

  unfoldable pub create_user : RegisterDto → Str → Method Str
  create_user dto token = do
    res ← request (fetch (post (admin_url ++ codes "/users") (some token) (user_body dto)))
    if res.status == 409
        then throw (http conflict (taken_message dto.username))
        else if ok res
        then user_id_or_throw (last_segment [] (or_empty res.location))
        else throw (http internal_error (codes "Failed to create user"))

  unfoldable pub assign_role : Str → Str → Str → Method (Unit {0})
  assign_role user_id role_name token = do
    found ← request (fetch (get (admin_url ++ codes "/roles/" ++ role_name) (some token)))
    if ok found
        then (do
          role ← settle found.json
          assigned ← request (
              fetch (
                post (admin_url ++ codes "/users/" ++ user_id ++ codes "/role-mappings/realm")
                  (some token) (role_body role.id role.name)))
          if ok assigned
              then ret tt
              else throw (http internal_error (codes "Failed to assign user role")))
        else throw (http internal_error (codes "Failed to assign user role"))

  -- `register`
  unfoldable pub register_user : RegisterDto → Method (Unit {0})
  unfolding get_admin_token create_user assign_role
  register_user dto = do
    token ← get_admin_token
    user_id ← create_user dto token
    assign_role user_id (codes "product:read") token
