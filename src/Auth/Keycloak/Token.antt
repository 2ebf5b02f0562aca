-- ===== src/Auth/Keycloak/Token.antt =====
-- The admin token that src/auth/services/keycloak-identity.service.ts caches.
use redis_api.Common.{
  ℕ, ◌+◌, ◌*◌, ◌<◌, ◌≡◌, ◌∙◌, refl, ap, Bool, true, false, Option, none, some, [], ◌∷◌, Answer,
  answer, error, ltb, arith, if◌then◌else◌,
}
use redis_api.Text.{Str, codes}
use redis_api.Effect.{ret, throw, http, settle, request, Outcome, returned, ◌>>=◌, ◌>>◌}
use redis_api.Auth.{AdminToken, HttpRequest, form, fetch, Json, Response, ok, write_token, Method}
use redis_api.Auth.World.{Systems, World, perform, alone, execute}
use redis_api.Auth.Keycloak.{
  Config, post, token_url, internal_error, renew_token, cached_or, get_admin_token,
}

module _ (y : Systems) (config : Config) where
  -- A token that is returned is the one that is cached.
  abbrev Caches : Outcome Str × World y → Type 0
  Caches (o, w) = (v : Str) (t : AdminToken) → o ≡ returned v → w.admin_token ≡ some t → t.value ≡ v

  -- What follows the answer to the request of a new token, and what follows a response.
  abbrev read_body : ℕ → Bool → Answer Json → Method Str
  read_body time good json =
      if good
      then (do
        body ← settle json
        request (
            write_token
              (record { value = body.access_token; expires_at = time + body.expires_in * 1000 }))
        ret body.access_token)
      else throw (http internal_error (codes "Authentication service error"))

  body-Caches :
      (time : ℕ) (good : Bool) (json : Answer Json) (w : World y)
      → Caches (alone y (read_body time good json) w)
  unfolding perform execute
  body-Caches time true (answer body) w v t e same = cc
  body-Caches time true error w v t e same = cc
  body-Caches time false json w v t e same = cc

  abbrev response : ℕ → Answer Response → Method Str
  response time r = settle r >>= λ res. read_body time (ok res) res.json

  response-Caches :
      (time : ℕ) (x : Answer Response × World y) → Caches (alone y (response time x.0) x.1)
  response-Caches time (answer res, w) v t e same = body-Caches time (ok res) res.json w v t e same
  response-Caches time (error, w) v t e same = cc

  abbrev token_request : HttpRequest
  token_request = post (token_url config) none (
      form (
        (codes "grant_type", codes "client_credentials")
        ∷ (codes "client_id", config.admin_client_id)
        ∷ (codes "client_secret", config.admin_client_secret)
        ∷ []))

  renew-Caches : (time : ℕ) (w : World y) → Caches (alone y (renew_token config time) w)
  unfolding renew_token
  renew-Caches time w = response-Caches time (perform y (fetch token_request) w)

  fresh-Caches :
      (time : ℕ) (t0 : AdminToken) (fresh : Bool) (w : World y)
      → w.admin_token ≡ some t0
      → Caches (alone y (if fresh then ret t0.value else renew_token config time) w)
  fresh-Caches time t0 true w h v t e same = cc
  fresh-Caches time t0 false w h v t e same = renew-Caches time w v t e same

  cached-Caches :
      (time : ℕ) (cached : Option AdminToken) (w : World y)
      → w.admin_token ≡ cached
      → Caches (alone y (cached_or config time cached (renew_token config time)) w)
  cached-Caches time none w h = renew-Caches time w
  cached-Caches time (some t0) w h = fresh-Caches time t0 (ltb (time + 10_000) t0.expires_at) w h

  get_admin_token-Caches : (w : World y) → Caches (alone y (get_admin_token config) w)
  unfolding get_admin_token perform execute
  get_admin_token-Caches w = cached-Caches w.clock w.admin_token w refl

  reuse :
      (t : AdminToken) (w : World y)
      → w.admin_token ≡ some t
      → w.clock + 10_000 < t.expires_at
      → alone y (get_admin_token config) w ≡ (returned t.value, w)
  unfolding get_admin_token perform execute
  reuse t w e early = rw (e, the_fresh) refl
    where
      the_fresh : ltb (w.clock + 10_000) t.expires_at ≡ true
      the_fresh = ground arith

  -- After `getAdminToken` has returned a token, from the cache or from Keycloak, and as long as it
  -- does not expire within the next ten seconds, `getAdminToken` returns the same token again, and
  -- asks Keycloak for nothing: the world stays as it is.
  get_admin_token-reuse :
      (w : World y) (v : Str) (t : AdminToken) (clock : ℕ)
      → (alone y (get_admin_token config) w).0 ≡ returned v
      → (alone y (get_admin_token config) w).1.admin_token ≡ some t
      → clock + 10_000 < t.expires_at
      → alone y
          (get_admin_token config)
          (record (alone y (get_admin_token config) w).1 { clock = clock })
        ≡ (returned v, record (alone y (get_admin_token config) w).1 { clock = clock })
  get_admin_token-reuse w v t clock got kept early =
      let later : World y = record (alone y (get_admin_token config) w).1 { clock = clock } in
      reuse t later kept early
      ∙ ap (λ u. (returned u, later)) (get_admin_token-Caches w v t got kept)
