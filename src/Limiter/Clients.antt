-- ===== src/Limiter/Clients.antt =====
-- What the limiter promises to one client, whatever the others do.
use redis_api.Common.{
  ℕ, ◌+◌, ◌*◌, ◌≤◌, ◌<◌, ◌≡◌, ◌≢◌, ◌∙◌, refl, true, Option, none, some, arith, leb, if◌then◌else◌,
  Bool-cases, inl, inr,
}
use redis_api.Text.{Str, ===_ne}
use redis_api.Limiter.HashServer.{Hashes}
use redis_api.Limiter.Pour.{pour, poured_back}
use redis_api.Limiter.{
  capacity, leak_rate, drain_seconds, level_field, time_field, decide, drained, identifier,
  bucket_key, use_limiter, next, too_many_requests,
}
use redis_api.Limiter.Bounds.{drained-forward, drained-same}
use redis_api.Limiter.Traffic.{Filled, pour-decides, field-pass}

module _ (h : Hashes) (id : Str) (cap rate : ℕ) where
  open h use {State, cell, pass}

  decide-slow :
      (l now d : ℕ)
      → 0 < cap
      → l ≤ cap * 1000
      → 1000 ≤ rate * d
      → (decide cap rate (now + d) (some l) (some now)).allowed ≡ true
  unfolding decide
  decide-slow l now d pos le slow = rw (drained-forward cap rate l now d) (ground arith)

  decide-none : (now : ℕ) → 0 < cap → (decide cap rate now none none).allowed ≡ true
  unfolding decide
  decide-none now pos = rw (drained-same cap rate now) (ground arith)

  -- A client whose bucket has a capacity, and was left at a level within it by its last request, is
  -- let in if it waits until one more request has leaked, whether or not the bucket has expired.
  slow_client_admitted :
      (l now d : ℕ) (s : State)
      → 0 < cap
      → l ≤ cap * 1000
      → 1000 ≤ rate * d
      → Filled h id cap rate l now s
      → (pour h id cap rate (now + d) (pass d s)).0.allowed ≡ true
  slow_client_admitted l now d s pos le slow f =
      let level = field-pass h id cap rate level_field l now d l s f f.level in
      let time = field-pass h id cap rate time_field l now d now s f f.last_time in
      elim (Bool-cases (leb (drain_seconds cap rate * 1000) d)) [
        | inl late ↦
            rw
              ((pour-decides h id cap rate (now + d) none none (pass d s) (rw late at level)
                (rw late at time)).0)
              (decide-none (now + d) pos)
        | inr early ↦
            rw
              ((pour-decides h id cap rate (now + d) (some l) (some now) (pass d s)
                (rw early at level) (rw early at time)).0)
              (decide-slow l now d pos le slow)
      ]

bucket_key-injective : (a b : Str) → bucket_key a ≡ bucket_key b → a ≡ b
bucket_key-injective a b e = cc

module _ (h : Hashes) where
  open h use {State, cell}

  -- A request of one client leaves every field of every other client's bucket as it is.
  pour-other :
      (id other field : Str) (cap rate now : ℕ) (s : State)
      → id ≢ other
      → cell (bucket_key other) field (pour h id cap rate now s).1 ≡ cell (bucket_key other) field s
  unfolding pour poured_back
  pour-other id other field cap rate now s ne =
      h.cell-expire (bucket_key id) (drain_seconds cap rate) (bucket_key other) field _
      ∙ h.cell-hset (bucket_key id) level_field time_field _ now (bucket_key other) field s
      ∙ rw (===_ne (bucket_key id) (bucket_key other) (λ e. ne (bucket_key-injective id other e)))
          refl

  -- Where the bucket has both fields, the middleware goes on exactly when the drained level leaves
  -- room for a whole request below the capacity; else it answers 429 with that level.
  pub use_limiter_lem :
      (ip : Option Str) (now l t : ℕ) (s : State)
      → cell (bucket_key (identifier ip)) level_field s ≡ some l
      → cell (bucket_key (identifier ip)) time_field s ≡ some t
      → (use_limiter h ip now s).0 ≡ (
          if leb (drained l t now leak_rate + 1000) (capacity * 1000)
          then next
          else too_many_requests (drained l t now leak_rate))
  unfolding use_limiter decide
  use_limiter_lem ip now l t s e f =
      rw (h.hmget_lem (bucket_key (identifier ip)) level_field time_field s, e, f) (ground arith)
