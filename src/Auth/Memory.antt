-- ===== src/Auth/Memory.antt =====
-- A bit array and an identity server in memory, on which the theorems of src/auth are applied.
use redis_api.Common.{ℕ, ◌+◌, ◌&&◌, ◌==◌, refl, none, some, [], answer, if◌then◌else◌}
use redis_api.Text.{Str, codes, ◌===◌}
use redis_api.Auth.{Response, Json}
use redis_api.Auth.World.{Bits, Provider, Systems, World}

abbrev pub bit_array : Bits
bit_array = record {
  State = Str → ℕ → ℕ;
  bit_at = λ k i s. s k i;
  get_bit = λ k i s. s k i;
  set_bit = λ k i v s. (s k i, λ j p. if k === j && i == p then v else s j p);
  get_bit_lem = λ k i s. refl;
  bit_at-set_bit = λ k i v j p s. refl;
}

abbrev pub body : Json
body = record {
  access_token = codes "t";
  refresh_token = codes "r";
  expires_in = 300;
  token_type = codes "Bearer";
  id = codes "1";
  name = codes "product:read";
}

-- A server that creates every user, and counts its requests.
abbrev pub created : Response
created = record { status = 201; location = some (codes "/users/7"); json = answer body }

abbrev pub generous : Provider
generous = record { State = ℕ; respond = λ q n. (created, n + 1) }

abbrev pub systems : Systems
systems = record { bits = bit_array; provider = generous }

abbrev pub quiet : World systems
quiet = record { bits = λ k i. 0; provider = 0; clock = 1000; admin_token = none; faults = [] }
