-- ===== src/Auth/Controller/Taken.antt =====
-- Registration in src/auth/auth.controller.ts of a username that the identity server has already, also
-- from a registration that failed after src/auth/services/keycloak-identity.service.ts had created it.
mod Tests
use redis_api.Common.{ℕ, ◌≡◌, ◌≢◌, ◌∙◌, refl, All, Bool, true, false, List, [], ◌∷◌}
use redis_api.Text.{Str}
use redis_api.Effect.{Exception, Outcome, returned, thrown, run-bind, continue}
use redis_api.Auth.{RegisterDto, getbit, bit, Method}
use redis_api.Auth.World.{Systems, World, execute, perform, alone}
use redis_api.Auth.Bloom.{might_exist}
use redis_api.Auth.Calls.{might_exist-Only, identity_register-Only}
use redis_api.Auth.Controller.{
  Identity, keycloak, entra_id, identity_register, register_new, after_filter, register,
}
use redis_api.Auth.Controller.Filter.{IsRead, reads_permitted, announce, bits_kept}
use redis_api.Auth.Keycloak.Users.{
  Accounts, Exists, Keeps, Keeps-Permits, run-Exists, register_user-refused,
}

module _ (y : Systems) where
  -- One registration after the other.
  pub register_all : Identity → List RegisterDto → World y → List (Outcome Str) × World y
  register_all identity [] w = ([], w)
  register_all identity (dto ∷ dtos) w =
      let (o, w') = alone y (register identity dto) w in
      let (os, w'') = register_all identity dtos w' in (o ∷ os, w'')

module _ (y : Systems) (accounts : Accounts y.provider) (username : Str) where
  identity_register-refused :
      (identity : Identity) (dto : RegisterDto) (w : World y)
      → dto.username ≡ username
      → Exists y accounts username w
      → (alone y (identity_register identity dto) w).0 ≢ returned tt
  identity_register-refused (keycloak config) dto w same h e =
      register_user-refused y accounts username config dto same w h e
  identity_register-refused entra_id dto w same h e = cc

  -- The request was refused; the filter is as it was, and the username still taken.
  abbrev pub Refuses : {A : Type 0} → World y → Outcome A × World y → Type 0
  Refuses w (o, w') =
      ((e : Exception) × (o ≡ thrown e)) × (w'.bits ≡ w.bits) × Exists y accounts username w'

  identified :
      (identity : Identity) (dto : RegisterDto) (w : World y) (f : Unit {0} → Method Str)
      (x : Outcome (Unit {0}) × World y)
      → x.0 ≢ returned tt
      → x.1.bits ≡ w.bits
      → Exists y accounts username x.1
      → Refuses w (continue (perform y) f x)
  identified identity dto w f (returned u, v) ne same h = absurd (ne refl)
  identified identity dto w f (thrown e, v) ne same h = ((e, refl), same, h)

  register_new-Refuses :
      (identity : Identity) (dto : RegisterDto) (w v : World y)
      → dto.username ≡ username
      → v.bits ≡ w.bits
      → Exists y accounts username v
      → Refuses w (alone y (register_new identity dto) v)
  unfolding register_new
  register_new-Refuses identity dto w v taken same h =
      rw (run-bind (perform y) (identity_register identity dto) (announce dto) v) (
        identified identity dto w (announce dto) (alone y (identity_register identity dto) v)
          (identity_register-refused identity dto v taken h)
          (bits_kept y (identity_register identity dto) v
              (identity_register-Only IsRead reads_permitted identity dto)
            ∙ same)
          (run-Exists y accounts username (identity_register identity dto) v
            (identity_register-Only (Keeps y accounts username) (Keeps-Permits y accounts username)
              identity dto)
            h))

  after_filter-Refuses :
      (identity : Identity) (dto : RegisterDto) (w : World y) (x : Outcome Bool × World y)
      → dto.username ≡ username
      → x.1.bits ≡ w.bits
      → Exists y accounts username x.1
      → Refuses w (continue (perform y) (after_filter identity dto) x)
  after_filter-Refuses identity dto w (returned true, v) taken same h = ((_, refl), same, h)
  after_filter-Refuses identity dto w (returned false, v) taken same h =
      register_new-Refuses identity dto w v taken same h
  after_filter-Refuses identity dto w (thrown e, v) taken same h = ((e, refl), same, h)

  reads_keep : (key : Str) (offset : ℕ) → Keeps y accounts username (bit getbit key offset)
  unfolding execute
  reads_keep key offset w h = h

  register-Refuses :
      (identity : Identity) (dto : RegisterDto) (w : World y)
      → dto.username ≡ username
      → Exists y accounts username w
      → Refuses w (alone y (register identity dto) w)
  unfolding register
  register-Refuses identity dto w taken h =
      rw (run-bind (perform y) (might_exist dto.username) (after_filter identity dto) w) (
        after_filter-Refuses identity dto w (alone y (might_exist dto.username) w) taken
          (bits_kept y (might_exist dto.username) w
            (might_exist-Only IsRead (λ key offset. tt) dto.username))
          (run-Exists y accounts username (might_exist dto.username) w
            (might_exist-Only (Keeps y accounts username) reads_keep dto.username) h))

  abbrev pub AllRefused : World y → List (Outcome Str) × World y → Type 0
  AllRefused w (os, w') =
      All (λ (o : Outcome Str). (e : Exception) × (o ≡ thrown e)) os
      × (w'.bits ≡ w.bits)
      × Exists y accounts username w'

  -- Once the identity server has a username, also where it is from a registration that failed after it had
  -- created the user, no registration of it ever returns, however often it is tried, with whatever other
  -- fields and whatever fails: each is refused, and the filter stays as it is.
  pub never_completed :
      (identity : Identity) (dtos : List RegisterDto) (w : World y)
      → All (λ (dto : RegisterDto). dto.username ≡ username) dtos
      → Exists y accounts username w
      → AllRefused w (register_all y identity dtos w)
  unfolding register_all
  never_completed identity [] w same h = (tt, refl, h)
  never_completed identity (dto ∷ dtos) w same h =
      let (refused, bits, still) = register-Refuses identity dto w same.0 h in
      let (others, unchanged, last) = never_completed identity dtos _ same.1 still in
      ((refused, others), unchanged ∙ bits, last)
