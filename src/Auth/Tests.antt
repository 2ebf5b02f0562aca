-- ===== src/Auth/Tests.antt =====
-- src/auth on a bit array and an identity server in memory.
use redis_api.Common.{◌<◌, ◌≡◌, ◌≢◌, refl, false, none, some, [], ◌∷◌, length, All}
use redis_api.Text.{codes}
use redis_api.Effect.{returned}
use redis_api.Auth.{RegisterDto}
use redis_api.Auth.Memory.{systems, quiet}
use redis_api.Auth.World.{World, perform, alone}
use redis_api.Auth.Bloom.{fnv1a, djb2, positions, might_exist, add, num_hashes, bit_size}
use redis_api.Auth.Bloom.Positions.{Distinct, positions-Distinct}
use redis_api.Auth.Bloom.Membership.{add-Marked, add_all, no_false_negative}
use redis_api.Auth.Keycloak.{
  Config, renew_token, get_admin_token, create_user, assign_role, last_segment, register_user,
}
use redis_api.Auth.Controller.{keycloak, register_new, register}
use redis_api.Auth.Controller.Registration.{RefusedIn, register-Marked}
use redis_api.Auth.Controller.Filter.{Filtered, register-Filtered}
use redis_api.Auth.Guards.{Payload}

abbrev ada : RegisterDto
ada = record {
  username = codes "ada";
  password = codes "secret";
  email = codes "a@b.c";
  first_name = codes "A";
  last_name = codes "L";
}

abbrev config : Config
config = record {
  base_url = codes "http://k";
  realm = codes "m";
  login_client_id = codes "l";
  admin_client_id = codes "i";
  admin_client_secret = codes "s";
}

-- The hashes of the empty text and of one letter, as published for FNV-1a.
hash_tests : (fnv1a [] ≡ 2166136261) × (fnv1a (codes "a") ≡ 3826002220)
unfolding fnv1a
hash_tests = (refl, refl)

abbrev marked : World systems
marked = (alone systems (add (codes "ada")) quiet).1

added_test : (alone systems (add (codes "ada")) quiet).0 ≡ returned tt
unfolding add positions fnv1a djb2 perform
added_test = refl

registered_test :
    (alone systems (register (keycloak config) ada) quiet).0
    ≡ returned (codes "User registered successfully")
unfolding register register_new might_exist add positions fnv1a djb2 perform register_user
    get_admin_token renew_token create_user assign_role last_segment
registered_test = refl

positions-Distinct_example :
    (length (positions (codes "ada")) ≡ num_hashes)
    × All (λ p. p < bit_size) (positions (codes "ada"))
    × Distinct (positions (codes "ada"))
positions-Distinct_example = positions-Distinct (codes "ada")

no_false_negative_example :
    (alone systems (might_exist (codes "ada")) (add_all systems (codes "bob" ∷ []) marked)).0
    ≢ returned false
no_false_negative_example =
    no_false_negative systems (codes "ada") (codes "bob" ∷ []) quiet added_test

register-Marked_example :
    RefusedIn systems (codes "ada") marked (alone systems (register (keycloak config) ada) marked)
register-Marked_example =
    register-Marked systems (keycloak config) ada marked
      (add-Marked systems (codes "ada") quiet added_test)

register-Filtered_example :
    Filtered systems
      (keycloak config)
      ada
      quiet
      (alone systems (register (keycloak config) ada) quiet)
register-Filtered_example = register-Filtered systems (keycloak config) ada quiet

abbrev reader : Payload
reader = record { realm_access = some (some (codes "product:read" ∷ [])); roles = none }
