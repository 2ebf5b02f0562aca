-- ===== src/Service/Exclusion.antt =====
-- The lock of src/redis/redis.service.ts while it is held: what other requests, on any replica, make of
-- it by acquireLock and releaseLock, with their calls failing in any way.
mod Tests
use redis_api.Common.{
  ℕ, suc, ◌+◌, ◌-◌, ◌<◌, ◌≡◌, ◌≢◌, ◌∙◌, refl, Bool, true, false, Option, none, some, List, [], ◌∷◌,
  All, Answer, answer, error, arith, if◌then◌else◌,
}
use redis_api.Text.{Str, ===_refl, ===_ne, ◌===◌}
use redis_api.Effect.{ret, request, settle, Outcome, returned, thrown, run, ◌>>=◌, ◌>>◌}
use redis_api.Redis.Server.{text}
use redis_api.Redis.Scripts.{release_script}
use redis_api.Service.{Method, set_px_nx, eval_release, sleep, acquire_lock, release_lock}
use redis_api.Service.World.{
  Systems, World, Fault, sound, unsent, unanswered, execute, meet, act, perform,
}

-- What a request other than the owner does, and how long that takes.
pub data Rival : Type 0 where
  tries : ℕ → Rival
  releases : Str → Rival
  waits : ℕ → Rival

abbrev pub elapsed : List Rival → ℕ
elapsed [] = 0
elapsed (tries d ∷ rs) = elapsed rs
elapsed (releases token ∷ rs) = elapsed rs
elapsed (waits d ∷ rs) = d + elapsed rs

-- It does not know the token of the owner.
abbrev pub IsForeign : Str → Rival → Type 0
IsForeign owner (tries d) = Unit
IsForeign owner (releases token) = owner ≢ token
IsForeign owner (waits d) = Unit

-- It is not told that it has the lock.
abbrev pub HasNoLock : Outcome (Option Str) → Type 0
HasNoLock (returned none) = Unit
HasNoLock (returned (some token)) = ⊥
HasNoLock (thrown e) = Unit

module _ (y : Systems) (key owner : Str) where
  abbrev pub rival : Rival → Method (Option Str)
  rival (tries d) = acquire_lock key d
  rival (releases token) = do release_lock key token; ret none
  rival (waits d) = do request (sleep d); ret none

  abbrev pub State : Type 0
  State = World y × List Fault

  pub run_rivals : List Rival → State → List (Outcome (Option Str)) × State
  run_rivals [] x = ([], x)
  run_rivals (r ∷ rs) x =
      let (o, x') = run (perform y) (rival r) x in let (os, x'') = run_rivals rs x' in (o ∷ os, x'')

  -- The lock holds the token of its owner, for `t` milliseconds more.
  abbrev pub IsHeld : ℕ → World y → Type 0
  IsHeld t w =
      (y.server.value key w.redis ≡ text owner) × (y.server.time_to_live key w.redis ≡ some t)

  -- An attempt to take the lock, under any fault.
  abbrev Denied : ℕ → Answer Bool × World y → Type 0
  Denied t (a, w) = (a ≢ answer true) × IsHeld t w

  try-IsHeld :
      (t d : ℕ) (token : Str) (w : World y)
      → IsHeld t w
      → Denied t (execute y (set_px_nx key token d) w)
  unfolding execute
  try-IsHeld t d token w (v, l) = (
    rw (y.server.nx-answer key token d w.redis, v) (λ e. cc),
    (
      y.server.value-nx key token d key w.redis ∙ rw (===_refl key, v) refl,
      y.server.time-nx key token d key w.redis ∙ rw (===_refl key, v) l,
    ),
  )

  meet-Denied :
      (f : Fault) (t d : ℕ) (token : Str) (w : World y)
      → IsHeld t w
      → Denied t (meet y f (set_px_nx key token d) w)
  meet-Denied sound t d token w h = try-IsHeld t d token w h
  meet-Denied unsent t d token w h = (λ e. cc, h)
  meet-Denied unanswered t d token w h = (λ e. cc, (try-IsHeld t d token w h).1)

  -- What a rival ends with.
  abbrev Kept : ℕ → Outcome (Option Str) × State → Type 0
  Kept t (o, x) = HasNoLock o × IsHeld t x.0

  tried-Kept :
      (t : ℕ) (token : Str) (fs : List Fault) (x : Answer Bool × World y)
      → Denied t x
      → Kept t (
          run
            (perform y)
            (settle x.0 >>= λ acquired. ret (if acquired then some token else none))
            (x.1, fs))
  tried-Kept t token fs (answer true, w) (ne, h) = absurd (ne refl)
  tried-Kept t token fs (answer false, w) (ne, h) = (tt, h)
  tried-Kept t token fs (error, w) (ne, h) = (tt, h)

  abbrev drew : World y → World y
  drew w = record w { drawn = suc w.drawn }

  tries-Kept :
      (t d : ℕ) (w : World y) (fs : List Fault)
      → IsHeld t w
      → Kept t (run (perform y) (acquire_lock key d) (w, fs))
  unfolding perform act execute
  tries-Kept t d w [] h =
      tried-Kept t (y.uuid w.drawn) [] (execute y (set_px_nx key (y.uuid w.drawn) d) (drew w))
        (try-IsHeld t d (y.uuid w.drawn) (drew w) h)
  tries-Kept t d w (f ∷ []) h =
      tried-Kept t (y.uuid w.drawn) [] (execute y (set_px_nx key (y.uuid w.drawn) d) (drew w))
        (try-IsHeld t d (y.uuid w.drawn) (drew w) h)
  tries-Kept t d w (f ∷ g ∷ fs) h =
      tried-Kept t (y.uuid w.drawn) fs (meet y g (set_px_nx key (y.uuid w.drawn) d) (drew w))
        (meet-Denied g t d (y.uuid w.drawn) (drew w) h)

  release-IsHeld :
      (t : ℕ) (token : Str) (w : World y)
      → owner ≢ token
      → IsHeld t w
      → IsHeld t (execute y (eval_release key token) w).1
  unfolding execute release_script
  release-IsHeld t token w foreign (v, l) =
      ground (arith, v, l, y.server.get_lem key w.redis, ===_ne owner token foreign)

  meet_release-IsHeld :
      (f : Fault) (t : ℕ) (token : Str) (w : World y)
      → owner ≢ token
      → IsHeld t w
      → IsHeld t (meet y f (eval_release key token) w).1
  meet_release-IsHeld sound t token w foreign h = release-IsHeld t token w foreign h
  meet_release-IsHeld unsent t token w foreign h = h
  meet_release-IsHeld unanswered t token w foreign h = release-IsHeld t token w foreign h

  released-Kept :
      (t : ℕ) (fs : List Fault) (x : Answer ℕ × World y)
      → IsHeld t x.1
      → Kept t (run (perform y) ((settle x.0 >>= λ n. ret tt) >>= λ u. ret none) (x.1, fs))
  released-Kept t fs (answer n, w) h = (tt, h)
  released-Kept t fs (error, w) h = (tt, h)

  releases-Kept :
      (t : ℕ) (token : Str) (w : World y) (fs : List Fault)
      → owner ≢ token
      → IsHeld t w
      → Kept t (run (perform y) (rival (releases token)) (w, fs))
  unfolding perform act
  releases-Kept t token w [] foreign h = released-Kept t [] _ (release-IsHeld t token w foreign h)
  releases-Kept t token w (f ∷ fs) foreign h =
      released-Kept t fs _ (meet_release-IsHeld f t token w foreign h)

  sleep-IsHeld :
      (t d : ℕ) (w : World y)
      → d < t
      → IsHeld t w
      → IsHeld (t - d) (record w { redis = y.server.pass d w.redis })
  sleep-IsHeld t d w early (v, l) = (
    y.server.value-pass d key w.redis ∙ rw (v, l) (ground arith),
    y.server.time-pass d key w.redis ∙ rw l (ground arith),
  )

  waits-Kept :
      (t d : ℕ) (w : World y) (fs : List Fault)
      → d < t
      → IsHeld t w
      → Kept (t - d) (run (perform y) (rival (waits d)) (w, fs))
  unfolding perform act execute
  waits-Kept t d w [] early h = (tt, sleep-IsHeld t d w early h)
  waits-Kept t d w (f ∷ fs) early h = (tt, sleep-IsHeld t d w early h)

  -- What all of them end with, `t` milliseconds before the lock would expire.
  abbrev pub AllKept : ℕ → List (Outcome (Option Str)) × State → Type 0
  AllKept t (os, x) = All HasNoLock os × IsHeld t x.0

  -- While the lock holds the token of its owner, with `t` milliseconds to live, and whatever others do
  -- that takes less time in all, by attempts to take it, releases with other tokens and waits, in any
  -- order and with any of their calls failing: none of them is told that it has the lock, and the lock
  -- still holds the token of its owner, for the rest of its time.
  pub lock_excludes :
      (rs : List Rival) (t : ℕ) (w : World y) (fs : List Fault)
      → All (IsForeign owner) rs
      → elapsed rs < t
      → IsHeld t w
      → AllKept (t - elapsed rs) (run_rivals rs (w, fs))
  unfolding run_rivals
  lock_excludes [] t w fs foreign early h = let all : t - 0 ≡ t = omega arith in rw all (tt, h)
  lock_excludes (tries d ∷ rs) t w fs foreign early h =
      let (empty, held) = tries-Kept t d w fs h in
      let (os, last) = lock_excludes rs t _ _ foreign.1 early held in ((empty, os), last)
  lock_excludes (releases token ∷ rs) t w fs foreign early h =
      let (empty, held) = releases-Kept t token w fs foreign.0 h in
      let (os, last) = lock_excludes rs t _ _ foreign.1 early held in ((empty, os), last)
  lock_excludes (waits d ∷ rs) t w fs foreign early h =
      let shorter : d < t = omega (arith, early) in
      let later : elapsed rs < t - d = omega (arith, early) in
      let rest : t - (d + elapsed rs) ≡ t - d - elapsed rs = omega arith in
      let (empty, held) = waits-Kept t d w fs shorter h in
      let (os, last) = lock_excludes rs (t - d) _ _ foreign.1 later held in
      rw rest ((empty, os), last)
