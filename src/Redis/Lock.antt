-- ===== src/Redis/Lock.antt =====
-- The lock of src/redis/redis.service.ts: SET NX PX takes it, RELEASE_LOCK_SCRIPT gives it back.
use redis_api.Common.{if◌then◌else◌, ℕ, ◌≡◌, ◌≢◌, answer, arith}
use redis_api.Text.{◌===◌, Str, ===_refl, ===_ne}
use redis_api.Redis.Server.{Server, missing, text}
use redis_api.Redis.Scripts.{release_script}

module _ (r : Server) (key : Str) where
  open r use {State, value, time_to_live, set_px_nx}

  -- The release changes no other key.
  pub release_script-SameBut :
      (token j : Str) (s : State)
      → key ≢ j
      → (value j (release_script r key token s).1 ≡ value j s)
        × (time_to_live j (release_script r key token s).1 ≡ time_to_live j s)
  unfolding release_script
  release_script-SameBut token j s h =
      ground (arith, ===_ne key j h, r.value-del key j s, r.time-del key j s)

  -- Neither does the attempt to take the lock.
  pub set_px_nx-SameBut :
      (token : Str) (d : ℕ) (j : Str) (s : State)
      → key ≢ j
      → (value j (set_px_nx key token d s).1 ≡ value j s)
        × (time_to_live j (set_px_nx key token d s).1 ≡ time_to_live j s)
  set_px_nx-SameBut token d j s h =
      ground (arith, ===_ne key j h, r.value-nx key token d j s, r.time-nx key token d j s)

  -- Where the lock holds the token of an owner, the release frees it and answers 1 if it was called
  -- with that token, and else leaves it and answers 0; in both cases every other key keeps its value
  -- and its time to live.
  pub release_script_lem :
      (token owner j : Str) (s : State)
      → value key s ≡ text owner
      → key ≢ j
      → ((release_script r key token s).0 ≡ answer (if owner === token then 1 else 0))
        × (value key (release_script r key token s).1
            ≡ (if owner === token then missing else text owner))
        × (value j (release_script r key token s).1 ≡ value j s)
        × (time_to_live j (release_script r key token s).1 ≡ time_to_live j s)
  unfolding release_script
  release_script_lem token owner j s held other = ground (
    arith,
    ===_refl key,
    ===_ne key j other,
    held,
    r.get_lem key s,
    r.del-answer key s,
    r.value-del key key s,
    r.value-del key j s,
    r.time-del key j s,
  )
