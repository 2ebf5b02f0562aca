-- ===== src/Auth/Controller/Taken/Tests.antt =====
-- An identity server in memory that has no role to assign, so that a registration fails half-way.
use redis_api.Common.{◌≡◌, refl, true, none, [], ◌∷◌}
use redis_api.Text.{codes, ◌===◌, ===_refl}
use redis_api.Effect.{thrown, http}
use redis_api.Auth.{RegisterDto}
use redis_api.Auth.Directory.{listed, refusal, with_directory, users}
use redis_api.Auth.World.{Systems, World, perform, execute, alone}
use redis_api.Auth.Bloom.{fnv1a, djb2, positions, might_exist, add}
use redis_api.Auth.Keycloak.{
  renew_token, get_admin_token, create_user, assign_role, last_segment, register_user,
}
use redis_api.Auth.Controller.{Identity, keycloak, register_new, register}
use redis_api.Auth.Controller.Taken.{AllRefused, register_all, never_completed}

abbrev systems : Systems
systems = with_directory (refusal 404)

abbrev empty : World systems
empty = record { bits = λ k i. 0; provider = []; clock = 1000; admin_token = none; faults = [] }

abbrev identity : Identity
identity = keycloak (record {
  base_url = codes "http://k";
  realm = codes "m";
  login_client_id = codes "l";
  admin_client_id = codes "i";
  admin_client_secret = codes "s";
})

abbrev ada : RegisterDto
ada = record {
  username = codes "ada";
  password = codes "secret";
  email = codes "a@b.c";
  first_name = codes "A";
  last_name = codes "L";
}

-- The first registration creates the user, and fails where it is to get its role.
abbrev half_way : World systems
half_way = (alone systems (register identity ada) empty).1

half_registered :
    ((alone systems (register identity ada) empty).0
      ≡ thrown (http 500 (codes "Failed to assign user role")))
    × (half_way.provider ≡ codes "ada" ∷ [])
unfolding register register_new might_exist add positions fnv1a djb2 perform execute register_user
    get_admin_token renew_token create_user assign_role last_segment ◌===◌
half_registered = (refl, refl)

still_there : listed (codes "ada") half_way.provider ≡ true
still_there = rw (half_registered.1, ===_refl (codes "ada")) refl

never_completed_example :
    AllRefused systems
      (users (refusal 404))
      (codes "ada")
      half_way
      (register_all systems identity (ada ∷ ada ∷ []) half_way)
never_completed_example =
    never_completed systems (users (refusal 404)) (codes "ada") identity (ada ∷ ada ∷ []) half_way
      (refl, (refl, tt)) still_there
