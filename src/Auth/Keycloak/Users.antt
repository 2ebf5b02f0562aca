-- ===== src/Auth/Keycloak/Users.antt =====
-- Requests to the identity server for a username that it has already (createUser and register of
-- src/auth/services/keycloak-identity.service.ts).
use redis_api.Common.{
  ◌≡◌, ◌≢◌, ◌∙◌, ap, ◌++◌, Bool, Bool-cases, inl, inr, true, false, [], ◌==◌, Answer, answer,
  Option, some, if◌then◌else◌,
}
use redis_api.Text.{Str, codes}
use redis_api.Effect.{ret, throw, call, settle, http, returned, run-bind-returned, ◌>>=◌}
use redis_api.Auth.{
  RegisterDto, Body, user_body, Call, bit, fetch, now, read_token, write_token, HttpRequest,
  Response, ok, Method,
}
use redis_api.Auth.World.{
  Provider, Systems, World, Fault, sound, unsent, unanswered, execute, meet, next_fault, perform,
  alone,
}
use redis_api.Auth.Keycloak.{
  Config, post, get, admin_url, conflict, internal_error, taken_message, get_admin_token,
  last_segment, or_empty, user_id_or_throw, create_user, register_user,
}
use redis_api.Auth.Calls.{Only, Permits, get_admin_token-Only}

-- What Keycloak documents of its users: no request that the service sends takes one away, and a user with
-- a username that is there is not created again.
pub record Accounts (p : Provider) : Type 0 where
  pub has : Str → p.State → Bool
  pub has-post :
      (username url : Str) (bearer : Option Str) (body : Body) (s : p.State)
      → has username s ≡ true
      → has username (p.respond (post url bearer body) s).1 ≡ true
  pub has-get :
      (username url : Str) (bearer : Option Str) (s : p.State)
      → has username s ≡ true
      → has username (p.respond (get url bearer) s).1 ≡ true
  pub not_again :
      (config : Config) (token : Str) (dto : RegisterDto) (s : p.State)
      → has dto.username s ≡ true
      → ok (p.respond (post (admin_url config ++ codes "/users") (some token) (user_body dto)) s).0
        ≡ false

module _ (config : Config) (dto : RegisterDto) where
  -- What `createUser` makes of a response.
  abbrev pub on_response : Answer Response → Method Str
  on_response r = settle r >>= λ res.
      if res.status == 409
      then throw (http conflict (taken_message dto.username))
      else if ok res
      then user_id_or_throw config (last_segment [] (or_empty res.location))
      else throw (http internal_error (codes "Failed to create user"))

  abbrev pub user_request : Str → HttpRequest
  user_request token = post (admin_url config ++ codes "/users") (some token) (user_body dto)

module _ (y : Systems) (accounts : Accounts y.provider) (username : Str) where
  abbrev pub Exists : World y → Type 0
  Exists w = accounts.has username w.provider ≡ true

  -- A call after which the username is still there.
  abbrev pub Keeps : Call → Type 0
  Keeps c = (w : World y) → Exists w → Exists (execute y c w).1

  pub Keeps-Permits : Permits Keeps
  unfolding execute
  Keeps-Permits = record {
    posting = λ url bearer body w h. accounts.has-post username url bearer body w.provider h;
    getting = λ url bearer w h. accounts.has-get username url bearer w.provider h;
    clock = λ w h. h;
    reading = λ w h. h;
    writing = λ t w h. h;
  }

  meet-Exists : (f : Fault) (c : Call) (w : World y) → Keeps c → Exists w → Exists (meet y f c w).1
  meet-Exists sound c w k h = k w h
  meet-Exists unsent c w k h = h
  meet-Exists unanswered c w k h = k w h

  pub perform-Exists : (c : Call) (w : World y) → Keeps c → Exists w → Exists (perform y c w).1
  unfolding perform
  perform-Exists (bit command i j) w k h =
      meet-Exists (next_fault y w.faults) (bit command i j) _ k h
  perform-Exists (fetch q) w k h = meet-Exists (next_fault y w.faults) (fetch q) _ k h
  perform-Exists now w k h = k w h
  perform-Exists read_token w k h = k w h
  perform-Exists (write_token t) w k h = k w h

  pub run-Exists :
      {A : Type 0} (m : Method A) (w : World y) → Only Keeps m → Exists w → Exists (alone y m w).1
  run-Exists (ret a) w k h = h
  run-Exists (throw e) w k h = h
  run-Exists (call c k) w (keeps, later) h =
      run-Exists (k (perform y c w).0) (perform y c w).1 (later (perform y c w).0)
        (perform-Exists c w keeps h)

  module _ (config : Config) (dto : RegisterDto) (same : dto.username ≡ username) where
    response-refused :
        (res : Response) (w : World y) (id : Str)
        → ok res ≡ false
        → (alone y (on_response config dto (answer res)) w).0 ≢ returned id
    response-refused res w id bad = elim (Bool-cases (res.status == 409)) [
      | inl taken ↦ rw taken (λ e. cc)
      | inr other ↦ rw (other, bad) (λ e. cc)
    ]

    met-refused :
        (f : Fault) (token id : Str) (w : World y)
        → Exists w
        → let (a, w') = meet y f (fetch (user_request config dto token)) w in
          (alone y (on_response config dto a) w').0 ≢ returned id
    unfolding execute
    met-refused sound token id w h e =
        response-refused (y.provider.respond (user_request config dto token) w.provider).0
          (meet y sound (fetch (user_request config dto token)) w).1 id
          (accounts.not_again config token dto w.provider
            (ap (λ u. accounts.has u w.provider) same ∙ h))
          e
    met-refused unsent token id w h e = cc
    met-refused unanswered token id w h e = cc

    create_user-refused :
        (token id : Str) (w : World y)
        → Exists w
        → (alone y (create_user config dto token) w).0 ≢ returned id
    unfolding create_user perform
    create_user-refused token id w h = met-refused (next_fault y w.faults) token id _ h

    pub register_user-refused :
        (w : World y) → Exists w → (alone y (register_user config dto) w).0 ≢ returned tt
    unfolding register_user
    register_user-refused w h e =
        let (token, got, whole, rest) =
          run-bind-returned (perform y) (get_admin_token config) _ w tt e in
        let w1 = (alone y (get_admin_token config) w).1 in
        let (id, made, all, last) =
          run-bind-returned (perform y) (create_user config dto token) _ w1 tt rest in
        create_user-refused token id w1
          (run-Exists (get_admin_token config) w (get_admin_token-Only Keeps Keeps-Permits config)
            h)
          made
