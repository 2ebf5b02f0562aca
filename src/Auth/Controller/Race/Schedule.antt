-- ===== src/Auth/Controller/Race/Schedule.antt =====
-- Schedules of requests to register, that run.
use redis_api.Common.{ℕ, zero, suc, ◌≡◌, ◌∙◌, sym, refl, ◌++◌, append_assoc, List, [], ◌∷◌}
use redis_api.Text.{Str}
use redis_api.Effect.{ret, throw, call}
use redis_api.Auth.{RegisterDto, Method}
use redis_api.Auth.World.{Systems}
use redis_api.Auth.Controller.{Identity}
use redis_api.Auth.Controller.Race.{Request, Rivals, resumed, resume, Reach, next}

module _ (y : Systems) (identity : Identity) where
  abbrev one_call :
      Rivals y identity → List Request → RegisterDto → Method Str → List Request → Rivals y identity
  one_call s before dto (ret a) after = s
  one_call s before dto (throw e) after = s
  one_call s before dto (call c k) after = resumed y identity s before dto c k after

  abbrev call_of : Rivals y identity → List Request → ℕ → List Request → Rivals y identity
  call_of s before i [] = s
  call_of s before zero (q ∷ after) = one_call s before q.dto q.rest after
  call_of s before (suc i) (q ∷ after) = call_of s (before ++ (q ∷ [])) i after

  -- The requests with these numbers make a call each, one after the other; one that has ended makes none.
  abbrev pub schedule : List ℕ → Rivals y identity → Rivals y identity
  schedule [] s = s
  schedule (i ∷ is) s = schedule is (call_of s [] i s.requests)

  one_call-Reach :
      (first s : Rivals y identity) (before : List Request) (dto : RegisterDto) (m : Method Str)
      (after : List Request)
      → s.requests ≡ before ++ (record { dto = dto; rest = m } ∷ after)
      → Reach y identity first s
      → Reach y identity first (one_call s before dto m after)
  one_call-Reach first s before dto (ret a) after e r = r
  one_call-Reach first s before dto (throw x) after e r = r
  one_call-Reach first s before dto (call c k) after e r = next r (resume before dto c k after e)

  call_of-Reach :
      (first s : Rivals y identity) (before : List Request) (i : ℕ) (qs : List Request)
      → s.requests ≡ before ++ qs
      → Reach y identity first s
      → Reach y identity first (call_of s before i qs)
  call_of-Reach first s before i [] e r = r
  call_of-Reach first s before zero (q ∷ after) e r =
      one_call-Reach first s before q.dto q.rest after e r
  call_of-Reach first s before (suc i) (q ∷ after) e r =
      call_of-Reach first s (before ++ (q ∷ [])) i after
        (e ∙ sym (append_assoc before (q ∷ []) after)) r

  pub schedule-Reach :
      (first : Rivals y identity) (is : List ℕ) (s : Rivals y identity)
      → Reach y identity first s
      → Reach y identity first (schedule is s)
  schedule-Reach first [] s r = r
  schedule-Reach first (i ∷ is) s r =
      schedule-Reach first is (call_of s [] i s.requests)
        (call_of-Reach first s [] i s.requests refl r)
