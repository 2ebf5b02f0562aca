-- ===== src/Auth/Directory.antt =====
-- An identity server in memory that keeps its users, on which the theorems about usernames that are
-- taken are applied.
use redis_api.Common.{
  ℕ, ◌≡◌, refl, ◌||◌, Bool, true, false, none, List, [], ◌∷◌, answer, arith, if◌then◌else◌,
}
use redis_api.Text.{Str, ◌===◌}
use redis_api.Auth.{RegisterDto, Body, no_body, form, user_body, role_body, Response, ok}
use redis_api.Auth.Memory.{bit_array, body, created}
use redis_api.Auth.World.{Provider, Systems}
use redis_api.Auth.Keycloak.Users.{Accounts}

abbrev pub listed : Str → List Str → Bool
listed u [] = false
listed u (v ∷ vs) = u === v || listed u vs

abbrev pub refusal : ℕ → Response
refusal status = record { status = status; location = none; json = answer body }

-- The server answers `role` to whoever asks for a role.
module _ (role : Response) where
  abbrev pub respond_to : Body → List Str → Response × List Str
  respond_to (user_body dto) s =
      if listed dto.username s then (refusal 409, s) else (created, dto.username ∷ s)
  respond_to no_body s = (role, s)
  respond_to (form fields) s = (created, s)
  respond_to (role_body id name) s = (created, s)

  abbrev pub directory : Provider
  directory = record { State = List Str; respond = λ q s. respond_to q.body s }

  abbrev pub with_directory : Systems
  with_directory = record { bits = bit_array; provider = directory }

  pub listed-respond_to :
      (u : Str) (b : Body) (s : List Str) → listed u s ≡ true → listed u (respond_to b s).1 ≡ true
  listed-respond_to u (user_body dto) s h = ground arith
  listed-respond_to u no_body s h = h
  listed-respond_to u (form fields) s h = h
  listed-respond_to u (role_body id name) s h = h

  pub taken-not_ok :
      (dto : RegisterDto) (s : List Str)
      → listed dto.username s ≡ true
      → ok (respond_to (user_body dto) s).0 ≡ false
  taken-not_ok dto s h = rw h refl

  abbrev pub users : Accounts directory
  users = record {
    has = listed;
    has-post = λ username url bearer b s h. listed-respond_to username b s h;
    has-get = λ username url bearer s h. h;
    not_again = λ config token dto s h. taken-not_ok dto s h;
  }
