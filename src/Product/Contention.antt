-- ===== src/Product/Contention.antt =====
-- `useItem` of src/product/product.controller.ts while another holder keeps the lock: the
-- request runs alone, with no call failing.
pub mod Refusal
mod Tests
use redis_api.Common.{
  ℕ, zero, suc, ◌+◌, ◌-◌, ◌*◌, ◌^◌, ◌≤◌, ◌<◌, ◌≡◌, ◌∙◌, refl, ap, inl, inr, Bool, true, false,
  Option, none, some, arith, leb, Bool-cases, if◌then◌else◌,
}
use redis_api.Text.{Str, ===_refl, ◌===◌}
use redis_api.Effect.{ret, request, Outcome, returned, run, ◌>>=◌, ◌>>◌}
use redis_api.Redis.Server.{missing, text, is_missing}
use redis_api.Service.{Method, sleep}
use redis_api.Service.World.{Systems, World, execute}
use redis_api.Product.{lock_key, lock_ttl_ms, lock_retry_ms, lock_retry_count, lock_loop}

-- The wait after attempt number `attempt`, and all the waits of `n` attempts from there on.
abbrev pub delay : ℕ → ℕ
delay attempt = lock_retry_ms * 2 ^ (attempt - 1)

unfoldable pub waits : ℕ → ℕ → ℕ
waits zero attempt = 0
waits (suc n) attempt = delay attempt + waits n (attempt + 1)

-- The loop once the lock was asked for, with the answer.
abbrev after_try : ℕ → ℕ → Str → Bool → Method (Option Str)
after_try n attempt token true = ret (some token)
after_try n attempt token false = do request (sleep (delay attempt)); lock_loop n (attempt + 1)

module _ (y : Systems) where
  open y.server use {State as Redis, value, time_to_live, set_px_nx, pass}

  abbrev pub undisturbed : {A : Type 0} → Method A → World y → Outcome A × World y
  undisturbed = run (execute y)

  -- The world once the lock was asked for.
  abbrev pub asked : World y → World y
  asked w = record w {
    drawn = suc w.drawn;
    redis = (set_px_nx lock_key (y.uuid w.drawn) lock_ttl_ms w.redis).1;
  }

  answered :
      (n attempt : ℕ) (w w' : World y) (stored : Bool)
      → undisturbed
          (ret (if stored then some (y.uuid w.drawn) else none) >>= λ token. elim token [
            | some t ↦ ret (some t)
            | none ↦ do request (sleep (delay attempt)); lock_loop n (attempt + 1)
          ])
          w'
        ≡ undisturbed (after_try n attempt (y.uuid w.drawn) stored) w'
  answered n attempt w w' true = refl
  answered n attempt w w' false = refl

  try_lem :
      (n attempt : ℕ) (w : World y)
      → undisturbed (lock_loop (suc n) attempt) w
        ≡ undisturbed
            (after_try n attempt (y.uuid w.drawn) (is_missing (value lock_key w.redis)))
            (asked w)
  unfolding lock_loop execute
  try_lem n attempt w =
      answered n attempt w (asked w) (set_px_nx lock_key (y.uuid w.drawn) lock_ttl_ms w.redis).0
      ∙ ap (λ b. undisturbed (after_try n attempt (y.uuid w.drawn) b) (asked w))
          (y.server.nx-answer lock_key (y.uuid w.drawn) lock_ttl_ms w.redis)

  -- The lock holds a token of `owner`, with `t` milliseconds to live.
  pub record Held (owner : Str) (t : ℕ) (s : Redis) : Type 0 where
    pub token : value lock_key s ≡ text owner
    pub living : time_to_live lock_key s ≡ some t

  pub asked-Held :
      (owner : Str) (t : ℕ) (w : World y) → Held owner t w.redis → Held owner t (asked w).redis
  asked-Held owner t w h = record {
    token =
        rw
          (
            y.server.value-nx lock_key (y.uuid w.drawn) lock_ttl_ms lock_key w.redis,
            ===_refl lock_key,
            h.token,
          )
          refl;
    living =
        rw
          (
            y.server.time-nx lock_key (y.uuid w.drawn) lock_ttl_ms lock_key w.redis,
            ===_refl lock_key,
            h.token,
          )
          h.living;
  }

  pub pass-Held :
      (owner : Str) (t d : ℕ) (s : Redis) → Held owner t s → d < t → Held owner (t - d) (pass d s)
  pass-Held owner t d s h below = record {
    token = rw (y.server.value-pass d lock_key s, h.token, h.living) (ground arith);
    living = rw (y.server.time-pass d lock_key s, h.living) (ground arith);
  }

  pass-gone :
      (owner : Str) (t d : ℕ) (s : Redis)
      → Held owner t s
      → t ≤ d
      → value lock_key (pass d s) ≡ missing
  pass-gone owner t d s h le = rw (y.server.value-pass d lock_key s, h.living) (ground arith)

  -- The world once the wait after an attempt is over.
  abbrev pub slept : ℕ → World y → World y
  slept attempt w = record w { redis = pass (delay attempt) w.redis }

  pub retry_lem :
      (n attempt t : ℕ) (owner : Str) (w : World y)
      → Held owner t w.redis
      → undisturbed (lock_loop (suc n) attempt) w
        ≡ undisturbed (lock_loop n (attempt + 1)) (slept attempt (asked w))
  unfolding execute
  retry_lem n attempt t owner w h = rw (try_lem n attempt w, h.token) refl

  -- The loop has left with a token that the lock now holds.
  abbrev pub Taken : Outcome (Option Str) × World y → Type 0
  Taken (o, w) = (token : Str) × (o ≡ returned (some token)) × Held token lock_ttl_ms w.redis

  free-Taken :
      (n attempt : ℕ) (w : World y)
      → value lock_key w.redis ≡ missing
      → Taken (undisturbed (lock_loop (suc n) attempt) w)
  free-Taken n attempt w free =
      rw (try_lem n attempt w, free)
        (
          y.uuid w.drawn,
          refl,
          record {
            token =
                rw
                  (
                    y.server.value-nx lock_key (y.uuid w.drawn) lock_ttl_ms lock_key w.redis,
                    ===_refl lock_key,
                    free,
                  )
                  refl;
            living =
                rw
                  (
                    y.server.time-nx lock_key (y.uuid w.drawn) lock_ttl_ms lock_key w.redis,
                    ===_refl lock_key,
                    free,
                  )
                  refl;
          },
        )

  freed :
      (n attempt t : ℕ) (owner : Str) (w : World y)
      → Held owner t w.redis
      → 0 < t
      → t ≤ waits n attempt
      → Taken (undisturbed (lock_loop (suc n) attempt) w)
  unfolding waits
  freed zero attempt t owner w h pos le = absurd (omega (arith, pos, le))
  freed (suc n) attempt t owner w h pos le =
      let h' = asked-Held owner t w h in
      rw (retry_lem (suc n) attempt t owner w h) (elim (Bool-cases (leb t (delay attempt))) [
        | inl over ↦
            free-Taken n (attempt + 1) (slept attempt (asked w))
              (pass-gone owner t (delay attempt) (asked w).redis h' (ground arith))
        | inr early ↦
            freed n (attempt + 1) (t - delay attempt) owner (slept attempt (asked w))
              (pass-Held owner t (delay attempt) (asked w).redis h' (ground arith)) (ground arith)
              (ground arith)
      ])

  -- A request that runs alone while the lock is held, and is never released, gets the lock at one of
  -- its five attempts if the lock has at most the first four waits, 750 milliseconds, to live: the
  -- loop returns a token, and the lock holds it with its full time to live.
  pub lock_loop-Taken :
      (t : ℕ) (owner : Str) (w : World y)
      → Held owner t w.redis
      → 0 < t
      → t ≤ 750
      → Taken (undisturbed (lock_loop lock_retry_count 1) w)
  unfolding waits
  lock_loop-Taken t owner w h pos le = freed 4 1 t owner w h pos le
