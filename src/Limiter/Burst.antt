-- ===== src/Limiter/Burst.antt =====
-- The rate limiter lets a burst in, up to its capacity.
use redis_api.Common.{
  ℕ, ◌+◌, ◌-◌, ◌*◌, ◌<◌, ◌≤◌, ◌≡◌, refl, true, Option, none, some, List, [], ◌∷◌, length, arith,
  leb, Bool-cases, ◌⊎◌, inl, inr,
}
use redis_api.Text.{Str}
use redis_api.Limiter.HashServer.{Hashes}
use redis_api.Limiter.Pour.{pour, leaky_bucket-pour}
use redis_api.Limiter.{drain_seconds, level_field, time_field, Verdict, verdict, decide, bucket_key}
use redis_api.Limiter.Bounds.{drained-forward, drained-same}
use redis_api.Limiter.Traffic.{admitted, Filled, pour-decides, field-pass, empty-pass}

module _ (h : Hashes) (id : Str) (cap rate : ℕ) where
  open h use {State, cell, time_to_live, pass}

  -- A request that is let in, and takes the level to `l + 1000` at most.
  abbrev pub HasRoom : ℕ → Verdict → Type 0
  HasRoom l v = (v.allowed ≡ true) × (v.level ≤ l + 1000)

  verdict-HasRoom : (l e : ℕ) → e ≤ l → l + 1000 ≤ cap * 1000 → HasRoom l (verdict cap e)
  verdict-HasRoom l e below room = ground arith

  decide-kept-HasRoom :
      (e l now d : ℕ)
      → l ≤ e + d * rate
      → e + 1000 ≤ cap * 1000
      → HasRoom e (decide cap rate (now + d) (some l) (some now))
  unfolding decide
  decide-kept-HasRoom e l now d leaked room =
      rw (drained-forward cap rate l now d)
        (verdict-HasRoom e (l - d * rate) (omega (arith, leaked)) room)

  decide-none-HasRoom :
      (l now : ℕ) → l + 1000 ≤ cap * 1000 → HasRoom l (decide cap rate now none none)
  unfolding decide
  decide-none-HasRoom l now room =
      rw (drained-same cap rate now) (verdict-HasRoom l 0 (omega arith) room)

  -- The next request and the bucket that it leaves.
  pub record Entry (l now d : ℕ) (s : State) : Type 0 where
    pub next : Verdict × State
    pub same : pour h id cap rate (now + d) (pass d s) ≡ next
    pub room : HasRoom l next.0
    pub filled : Filled h id cap rate next.0.level (now + d) next.1

  fields-Entry :
      (l now d : ℕ) (level last_time : Option ℕ) (s : State)
      → cell (bucket_key id) level_field (pass d s) ≡ level
      → cell (bucket_key id) time_field (pass d s) ≡ last_time
      → HasRoom l (decide cap rate (now + d) level last_time)
      → Entry l now d s
  fields-Entry l now d level last_time s e f room =
      let (v, filled) = pour-decides h id cap rate (now + d) level last_time (pass d s) e f in
      record {
        next = pour h id cap rate (now + d) (pass d s);
        same = refl;
        room = rw v room;
        filled = rw v filled;
      }

  -- The bucket holds at most the level `l`, or nothing at all.
  abbrev pub Ready : ℕ → ℕ → State → Type 0
  Ready l now s =
      Filled h id cap rate l now s
      ⊎ ((cell (bucket_key id) level_field s ≡ none) × (cell (bucket_key id) time_field s ≡ none))

  -- A request `d` milliseconds later, by when the level has sunk to `e`.
  pub enter_drained :
      (e l now d : ℕ) (s : State)
      → l ≤ e + d * rate
      → e + 1000 ≤ cap * 1000
      → Ready l now s
      → Entry e now d s
  enter_drained e l now d s leaked room (inl f) =
      let level = field-pass h id cap rate level_field l now d l s f f.level in
      let time = field-pass h id cap rate time_field l now d now s f f.last_time in
      elim (Bool-cases (leb (drain_seconds cap rate * 1000) d)) [
        | inl late ↦
            fields-Entry e now d none none s (rw late at level) (rw late at time)
              (decide-none-HasRoom e (now + d) room)
        | inr early ↦
            fields-Entry e now d (some l) (some now) s (rw early at level) (rw early at time)
              (decide-kept-HasRoom e l now d leaked room)
      ]
  enter_drained e l now d s leaked room (inr (x, f)) =
      fields-Entry e now d none none s (empty-pass h id cap rate level_field d s x)
        (empty-pass h id cap rate time_field d s f) (decide-none-HasRoom e (now + d) room)

  pub enter : (l now d : ℕ) (s : State) → l + 1000 ≤ cap * 1000 → Ready l now s → Entry l now d s
  enter l now d s room ready = enter_drained l l now d s (omega arith) room ready

  admitted-Entry :
      (l now d : ℕ) (ds : List ℕ) (s : State) (v : Entry l now d s)
      → 0 < rate
      → admitted h id cap rate ds (now + d) v.next.1 ≡ length ds
      → admitted h id cap rate (d ∷ ds) now s ≡ length (d ∷ ds)
  unfolding admitted
  admitted-Entry l now d ds s v pos ih =
      rw (leaky_bucket-pour h id cap rate (now + d) (pass d s) pos, v.same, v.room.0)
        (omega (arith, ih))

  burst-from :
      (ds : List ℕ) (l now : ℕ) (s : State)
      → 0 < rate
      → l + 1000 * length ds ≤ cap * 1000
      → Ready l now s
      → admitted h id cap rate ds now s ≡ length ds
  unfolding admitted
  burst-from [] l now s pos room f = refl
  burst-from (d ∷ ds) l now s pos room f =
      let v = enter l now d s (omega (arith, room)) f in
      admitted-Entry l now d ds s v pos (
        burst-from ds v.next.0.level (now + d) v.next.1 pos (omega (arith, room, v.room.1))
          (inl v.filled))

  -- At a leak rate above zero, from an empty bucket, as many requests as the capacity are all let in,
  -- whatever the times at which they come, none before the one ahead of it, and whether or not the bucket expires between two of
  -- them.
  pub burst_admitted :
      (ds : List ℕ) (now : ℕ) (s : State)
      → 0 < rate
      → length ds ≤ cap
      → cell (bucket_key id) level_field s ≡ none
      → cell (bucket_key id) time_field s ≡ none
      → admitted h id cap rate ds now s ≡ length ds
  burst_admitted ds now s pos few e f = burst-from ds 0 now s pos (omega (arith, few)) (inr (e, f))
