-- ===== src/Auth/Controller/Race/Tests.antt =====
-- Two requests to register one username, on an identity server in memory, with their calls in turn.
use redis_api.Common.{ℕ, zero, suc, ◌≡◌, ◌⊎◌, refl, none, List, [], ◌∷◌, true, Bool-cases, inl, inr}
use redis_api.Text.{Str, codes, ◌===◌, ===_refl}
use redis_api.Effect.{ret, throw, http}
use redis_api.Auth.{RegisterDto, user_body}
use redis_api.Auth.Memory.{created}
use redis_api.Auth.World.{Systems, perform, execute, alone}
use redis_api.Auth.Directory.{listed, respond_to, with_directory, users}
use redis_api.Auth.Bloom.{fnv1a, djb2, positions, might_exist, add}
use redis_api.Auth.Keycloak.{
  renew_token, get_admin_token, create_user, assign_role, last_segment, register_user,
}
use redis_api.Auth.Keycloak.Users.{Exists}
use redis_api.Auth.Controller.{Identity, keycloak, register_new, register}
use redis_api.Auth.Controller.Registration.{RefusedIn}
use redis_api.Auth.Controller.Race.{Request, wins, Rivals, Reach, here, next, arrive}
use redis_api.Auth.Controller.Race.Schedule.{schedule, schedule-Reach}
use redis_api.Auth.Controller.Race.Once.{Creates}
use redis_api.Auth.Controller.Race.Winner.{one_winner}
use redis_api.Auth.Controller.Race.Known.{late_refused}

abbrev systems : Systems
systems = with_directory created

listed-after :
    (dto : RegisterDto) (s : List Str)
    → listed dto.username (respond_to created (user_body dto) s).1 ≡ true
listed-after dto s = elim (Bool-cases (listed dto.username s)) [
  | inl there ↦ rw (there, there) refl
  | inr absent ↦ rw (absent, ===_refl dto.username) refl
]

creates : Creates (users created)
creates = record { created = λ config token dto s e. listed-after dto s }

abbrev identity : Identity
identity = keycloak (record {
  base_url = codes "http://k";
  realm = codes "m";
  login_client_id = codes "l";
  admin_client_id = codes "i";
  admin_client_secret = codes "s";
})

abbrev ada : RegisterDto
ada = record {
  username = codes "ada";
  password = codes "secret";
  email = codes "a@b.c";
  first_name = codes "A";
  last_name = codes "L";
}

abbrev idle : Rivals systems identity
idle = record {
  world = record { bits = λ k i. 0; provider = []; clock = 1000; admin_token = none; faults = [] };
  requests = [];
}

abbrev two : Rivals systems identity
two = record idle {
  requests =
      record { dto = ada; rest = register identity ada }
      ∷ record { dto = ada; rest = register identity ada }
      ∷ [];
}

-- `n` calls of each, in turn.
abbrev turns : ℕ → List ℕ
turns zero = []
turns (suc n) = 0 ∷ 1 ∷ turns n

abbrev raced : Rivals systems identity
raced = schedule systems identity (turns 22) two

raced-Reach : Reach systems identity idle raced
raced-Reach =
    schedule-Reach systems identity idle (turns 22) two (next (next here (arrive ada)) (arrive ada))

abbrev won : Request
won = record { dto = ada; rest = ret (codes "User registered successfully") }

-- The second request, which had read the filter before the first wrote to it, gets Keycloak's 409.
abbrev lost : Request
lost = record { dto = ada; rest = throw (http 409 (codes "Username 'ada' is already taken")) }

raced_test : (raced.requests ≡ won ∷ lost ∷ []) × (wins (codes "ada") raced.requests ≡ 1)
unfolding register register_new might_exist add positions fnv1a djb2 perform execute register_user
    get_admin_token renew_token create_user assign_role last_segment ◌===◌
raced_test = (refl, refl)

one_winner_example :
    (wins (codes "ada") raced.requests ≡ 0)
    ⊎ ((wins (codes "ada") raced.requests ≡ 1)
        × (Exists systems (users created) (codes "ada") idle.world → ⊥)
        × Exists systems (users created) (codes "ada") raced.world)
one_winner_example =
    one_winner systems (users created) (codes "ada") identity creates idle raced refl raced-Reach

late_refused_example :
    RefusedIn systems (codes "ada") raced.world (alone systems (register identity ada) raced.world)
late_refused_example =
    late_refused systems identity idle raced [] won (lost ∷ []) ada refl raced-Reach raced_test.0
      refl refl
