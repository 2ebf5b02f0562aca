-- ===== src/Auth/Controller/Race/Once.antt =====
-- A registration in src/auth/auth.controller.ts gets past the creation of its user only where the
-- identity server did not have the username, and has it from then on.
use redis_api.Common.{◌≡◌, ◌⊎◌, Bool, Bool-cases, inl, inr, true, false, answer, ap, ◌∙◌, sym, ◌==◌}
use redis_api.Text.{Str}
use redis_api.Effect.{ret, throw, call, ◌>>=◌}
use redis_api.Auth.{RegisterDto, fetch, Response, ok, Method}
use redis_api.Auth.World.{
  Provider, Systems, World, Fault, sound, unsent, unanswered, execute, meet, next_fault, perform,
}
use redis_api.Auth.Bloom.{might_exist}
use redis_api.Auth.Keycloak.{Config, get_admin_token, create_user, register_user}
use redis_api.Auth.Keycloak.Users.{Accounts, Exists, on_response, user_request}
use redis_api.Auth.Controller.{
  Identity, keycloak, entra_id, identity_register, register_new, after_filter, register,
}

-- What Keycloak documents of a request to create a user that it answers with success.
pub record Creates {p : Provider} (accounts : Accounts p) : Type 0 where
  pub created :
      (config : Config) (token : Str) (dto : RegisterDto) (s : p.State)
      → ok (p.respond (user_request config dto token) s).0 ≡ true
      → accounts.has dto.username (p.respond (user_request config dto token) s).1 ≡ true

module _ (y : Systems) (accounts : Accounts y.provider) (username : Str) where
  -- The method does not return, unless one of its calls creates the username where it did not exist.
  abbrev pub Once : {A : Type 0} → Method A → Type 0
  Once (ret a) = ⊥
  Once (throw e) = Unit
  Once (call c k) =
      (w : World y)
      → Once (k (perform y c w).0)
        ⊎ ((Exists y accounts username w → ⊥) × Exists y accounts username (perform y c w).1)

  bind-Once : {A B : Type 0} (m : Method A) (f : A → Method B) → Once m → Once (m >>= f)
  bind-Once (ret a) f h = absurd h
  bind-Once (throw e) f h = tt
  bind-Once (call c k) f h = λ w. elim (h w) [
    | inl still ↦ inl (bind-Once (k (perform y c w).0) f still)
    | inr made ↦ inr made
  ]

  later-Once :
      {A B : Type 0} (m : Method A) (f : A → Method B) → ((a : A) → Once (f a)) → Once (m >>= f)
  later-Once (ret a) f h = h a
  later-Once (throw e) f h = tt
  later-Once (call c k) f h = λ w. inl (later-Once (k (perform y c w).0) f h)

  module _ (creates : Creates accounts) where
    module _ (config : Config) (dto : RegisterDto) (same : dto.username ≡ username) where
      response-Once : (res : Response) → ok res ≡ false → Once (on_response config dto (answer res))
      response-Once res bad = elim (Bool-cases (res.status == 409)) [
        | inl taken ↦ rw taken tt
        | inr other ↦ rw (other, bad) tt
      ]

      meet-Once :
          (f : Fault) (token : Str) (w : World y)
          → let (a, w') = meet y f (fetch (user_request config dto token)) w in
            Once (on_response config dto a)
            ⊎ ((Exists y accounts username w → ⊥) × Exists y accounts username w')
      unfolding execute
      meet-Once sound token w =
          let res = (y.provider.respond (user_request config dto token) w.provider).0 in
          elim (Bool-cases (ok res)) [
            | inl good ↦ inr (
              λ h.
                  let bad =
                    accounts.not_again config token dto w.provider
                      (ap (λ u. accounts.has u w.provider) same ∙ h) in
                  cc,
              sym (
                    ap
                      (λ u.
                        accounts.has u
                          (y.provider.respond (user_request config dto token) w.provider).1)
                      same)
                  ∙ creates.created config token dto w.provider good,
            )
            | inr bad ↦ inl (response-Once res bad)
          ]
      meet-Once unsent token w = inl tt
      meet-Once unanswered token w = inl tt

      create_user-Once : (token : Str) → Once (create_user config dto token)
      unfolding create_user perform
      create_user-Once token = λ w. meet-Once (next_fault y w.faults) token _

      register_user-Once : Once (register_user config dto)
      unfolding register_user
      register_user-Once =
          later-Once (get_admin_token config) _
            (λ token. bind-Once (create_user config dto token) _ (create_user-Once token))

    identity_register-Once :
        (identity : Identity) (dto : RegisterDto)
        → dto.username ≡ username
        → Once (identity_register identity dto)
    identity_register-Once (keycloak config) dto same = register_user-Once config dto same
    identity_register-Once entra_id dto same = tt

    after_filter-Once :
        (identity : Identity) (dto : RegisterDto) (likely : Bool)
        → dto.username ≡ username
        → Once (after_filter identity dto likely)
    unfolding register_new
    after_filter-Once identity dto true same = tt
    after_filter-Once identity dto false same =
        bind-Once (identity_register identity dto) _ (identity_register-Once identity dto same)

    pub register-Once :
        (identity : Identity) (dto : RegisterDto)
        → dto.username ≡ username
        → Once (register identity dto)
    unfolding register
    register-Once identity dto same =
        later-Once (might_exist dto.username) (after_filter identity dto)
          (λ likely. after_filter-Once identity dto likely same)
