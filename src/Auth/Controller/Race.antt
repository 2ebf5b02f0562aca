-- ===== src/Auth/Controller/Race.antt =====
-- Any number of requests to register of src/auth/auth.controller.ts over one filter and one identity
-- server, interleaved at every call, with any call failing.
mod Among
mod Once
mod Marks
mod Winner
mod Known
mod Schedule
mod Tests
use redis_api.Common.{ℕ, ◌+◌, ◌≡◌, ◌++◌, List, [], ◌∷◌, Answer, if◌then◌else◌}
use redis_api.Text.{Str, ◌===◌}
use redis_api.Effect.{ret, throw, call}
use redis_api.Auth.{RegisterDto, Call, Reply, Method}
use redis_api.Auth.World.{Systems, World, perform}
use redis_api.Auth.Controller.{Identity, register}

-- A request, with what is left of it to run. One that has ended stays, so that it is counted.
pub record Request : Type 0 where
  pub dto : RegisterDto
  pub rest : Method Str

abbrev pub completed : Method Str → ℕ
completed (ret message) = 1
completed (throw e) = 0
completed (call c k) = 0

-- The requests for a username that were answered 201.
abbrev pub wins : Str → List Request → ℕ
wins username [] = 0
wins username (q ∷ qs) =
    (if q.dto.username === username then completed q.rest else 0) + wins username qs

module _ (y : Systems) (identity : Identity) where
  pub record Rivals : Type 0 where
    pub world : World y
    pub requests : List Request

  abbrev pub resumed :
      Rivals
      → List Request
      → RegisterDto
      → (c : Call) → (Answer (Reply c) → Method Str)
      → List Request
      → Rivals
  resumed s before dto c k after = record {
    world = (perform y c s.world).1;
    requests = before ++ (record { dto = dto; rest = k (perform y c s.world).0 } ∷ after);
  }

  pub data Step (s : Rivals) : Rivals → Type 0 where
    arrive :
        (dto : RegisterDto)
        → Step s (record s {
          requests = record { dto = dto; rest = register identity dto } ∷ s.requests;
        })
    resume :
        (before : List Request) (dto : RegisterDto) (c : Call) (k : Answer (Reply c) → Method Str)
        (after : List Request)
        → s.requests ≡ before ++ (record { dto = dto; rest = call c k } ∷ after)
        → Step s (resumed s before dto c k after)
    elapse : (d : ℕ) → Step s (record s { world = record s.world { clock = s.world.clock + d } })

  pub data Reach (s : Rivals) : Rivals → Type 0 where
    here : Reach s s
    next : {t u : Rivals} → Reach s t → Step t u → Reach s u
