-- ===== src/Service/Exclusion/Tests.antt =====
-- A lock in memory, and two requests that do not have it.
use redis_api.Common.{◌-◌, ◌≢◌, refl, some, List, [], ◌∷◌, arith}
use redis_api.Text.{codes, ◌===◌, ===_iff}
use redis_api.Redis.Server.{text}
use redis_api.Redis.Memory.{write, fresh}
use redis_api.Service.World.{World, unsent, unanswered}
use redis_api.Service.Memory.{desk}
use redis_api.Service.Exclusion.{
  Rival, tries, releases, waits, elapsed, run_rivals, AllKept, lock_excludes,
}

abbrev locked : World desk
locked = record {
  redis = write (codes "lock") (text (codes "ours")) (some 300) fresh;
  kafka = [];
  drawn = 0;
}

abbrev rivals : List Rival
rivals = tries 300 ∷ waits 100 ∷ releases (codes "theirs") ∷ tries 300 ∷ waits 100 ∷ []

other_token : codes "ours" ≢ codes "theirs"
unfolding ◌===◌
other_token h = cc ((===_iff (codes "ours") (codes "theirs")).1 h)

lock_excludes_example :
    AllKept desk
      (codes "lock")
      (codes "ours")
      (300 - elapsed rivals)
      (run_rivals desk (codes "lock") (codes "ours") rivals (locked, unsent ∷ unanswered ∷ []))
unfolding ◌===◌
lock_excludes_example =
    lock_excludes desk (codes "lock") (codes "ours") rivals 300 locked (unsent ∷ unanswered ∷ [])
      (tt, (tt, (other_token, (tt, (tt, tt))))) (omega arith) (refl, refl)
