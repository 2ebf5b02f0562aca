-- ===== src/Limiter/Traffic.antt =====
-- A client's requests over time on one bucket of the server, which may expire in between.
use redis_api.Common.{
  Bool, false, Answer, answer, error, ℕ, ◌+◌, ◌*◌, ◌≤◌, ◌<◌, ◌≡◌, ◌∙◌, refl, Option, none, some,
  List, [], ◌∷◌, arith, leb, if◌then◌else◌, Bool-cases, inl, inr, leb→le,
}
use redis_api.Text.{Str, ◌===◌, ===_refl}
use redis_api.Limiter.HashServer.{Hashes, outlived}
use redis_api.Limiter.Pour.{pour, poured_back, leaky_bucket-pour}
use redis_api.Limiter.{
  level_field, time_field, Verdict, decide, bucket_key, leaky_bucket, drain_seconds,
}
use redis_api.Limiter.Bounds.{one_if, Admits, decide-kept, decide-expired, decide-empty}

abbrev pub sum : List ℕ → ℕ
sum [] = 0
sum (d ∷ ds) = d + sum ds

outlived-none : (d : ℕ) (t : Option ℕ) → outlived d t none ≡ none
outlived-none d none = refl
outlived-none d (some t) = ground arith

abbrev pub lets_in : Answer Verdict → Bool
lets_in error = false
lets_in (answer v) = v.allowed

module _ (h : Hashes) (id : Str) (cap rate : ℕ) where
  open h use {State, cell, time_to_live, pass}

  -- The requests come `d` milliseconds apart, for each `d` of the list; how many are let in.
  unfoldable pub admitted : List ℕ → ℕ → State → ℕ
  admitted [] now s = 0
  admitted (d ∷ ds) now s =
      let (a, s') = leaky_bucket h id cap rate (now + d) (pass d s) in
      one_if (lets_in a) + admitted ds (now + d) s'

  -- The bucket right after a request at the time `now` that left the level `l`.
  pub record Filled (l now : ℕ) (s : State) : Type 0 where
    pub level : cell (bucket_key id) level_field s ≡ some l
    pub last_time : cell (bucket_key id) time_field s ≡ some now
    pub living : time_to_live (bucket_key id) s ≡ some (drain_seconds cap rate * 1000)

  poured_back-Filled :
      (now : ℕ) (v : Verdict) (s : State)
      → Filled v.level now (poured_back h (bucket_key id) cap rate now v s).1
  unfolding poured_back ◌===◌
  poured_back-Filled now v s = record {
    level =
        h.cell-expire (bucket_key id) (drain_seconds cap rate) (bucket_key id) level_field _
        ∙ h.cell-hset (bucket_key id) level_field time_field v.level now (bucket_key id) level_field
            s
        ∙ rw (===_refl (bucket_key id)) refl;
    last_time =
        h.cell-expire (bucket_key id) (drain_seconds cap rate) (bucket_key id) time_field _
        ∙ h.cell-hset (bucket_key id) level_field time_field v.level now (bucket_key id) time_field
            s
        ∙ rw (===_refl (bucket_key id)) refl;
    living = h.time-expire (bucket_key id) (drain_seconds cap rate) _;
  }

  -- The script's decision on the two fields, and what it leaves.
  pub pour-decides :
      (now : ℕ) (level last_time : Option ℕ) (s : State)
      → cell (bucket_key id) level_field s ≡ level
      → cell (bucket_key id) time_field s ≡ last_time
      → let v = decide cap rate now level last_time in
        ((pour h id cap rate now s).0 ≡ v) × Filled v.level now (pour h id cap rate now s).1
  unfolding pour
  pour-decides now level last_time s e f =
      rw (h.hmget_lem (bucket_key id) level_field time_field s, e, f)
        (refl, poured_back-Filled now (decide cap rate now level last_time) s)

  -- One more request keeps the account.
  pub record Visit (l now d : ℕ) (s : State) : Type 0 where
    pub next : Verdict × State
    pub same : pour h id cap rate (now + d) (pass d s) ≡ next
    pub admits : Admits cap rate l d next.0
    pub filled : Filled next.0.level (now + d) next.1

  fields-Visit :
      (l now d : ℕ) (level last_time : Option ℕ) (s : State)
      → cell (bucket_key id) level_field (pass d s) ≡ level
      → cell (bucket_key id) time_field (pass d s) ≡ last_time
      → Admits cap rate l d (decide cap rate (now + d) level last_time)
      → Visit l now d s
  fields-Visit l now d level last_time s e f a =
      let (v, filled) = pour-decides (now + d) level last_time (pass d s) e f in
      record {
        next = pour h id cap rate (now + d) (pass d s);
        same = refl;
        admits = rw v a;
        filled = rw v filled;
      }

  -- A field of a filled bucket after `d` milliseconds.
  pub field-pass :
      (field : Str) (l now d v : ℕ) (s : State)
      → Filled l now s
      → cell (bucket_key id) field s ≡ some v
      → cell (bucket_key id) field (pass d s)
        ≡ (if leb (drain_seconds cap rate * 1000) d then none else some v)
  field-pass field l now d v s f e = h.cell-pass d (bucket_key id) field s ∙ rw (f.living, e) refl

  pub visit :
      (l now d : ℕ) (s : State) → 0 < rate → l ≤ cap * 1000 → Filled l now s → Visit l now d s
  visit l now d s pos le f = elim (Bool-cases (leb (drain_seconds cap rate * 1000) d)) [
    | inl late ↦
        fields-Visit l now d none none s (rw late at (field-pass level_field l now d l s f f.level))
          (rw late at (field-pass time_field l now d now s f f.last_time))
          (decide-expired cap rate l now d pos le (leb→le _ _ late))
    | inr early ↦
        fields-Visit l now d (some l) (some now) s
          (rw early at (field-pass level_field l now d l s f f.level))
          (rw early at (field-pass time_field l now d now s f f.last_time))
          (decide-kept cap rate l now d le)
  ]

  admitted-Visit :
      (l now d : ℕ) (ds : List ℕ) (s : State) (v : Visit l now d s)
      → 0 < rate
      → admitted (d ∷ ds) now s ≡ one_if v.next.0.allowed + admitted ds (now + d) v.next.1
  unfolding admitted
  admitted-Visit l now d ds s v pos =
      rw (leaky_bucket-pour h id cap rate (now + d) (pass d s) pos, v.same) refl

  spend :
      (l now d : ℕ) (ds : List ℕ) (s : State) (v : Visit l now d s)
      → 0 < rate
      → 1000 * admitted ds (now + d) v.next.1 + v.next.0.level ≤ cap * 1000 + rate * sum ds
      → 1000 * admitted (d ∷ ds) now s + l ≤ cap * 1000 + rate * sum (d ∷ ds)
  spend l now d ds s v pos ih =
      rw (admitted-Visit l now d ds s v pos) (omega (arith, v.admits.spent))

  pub empty-pass :
      (field : Str) (d : ℕ) (s : State)
      → cell (bucket_key id) field s ≡ none
      → cell (bucket_key id) field (pass d s) ≡ none
  empty-pass field d s e =
      h.cell-pass d (bucket_key id) field s
      ∙ rw e (outlived-none d (time_to_live (bucket_key id) s))

  admitted-from :
      (ds : List ℕ) (l now : ℕ) (s : State)
      → 0 < rate
      → l ≤ cap * 1000
      → Filled l now s
      → 1000 * admitted ds now s + l ≤ cap * 1000 + rate * sum ds
  unfolding admitted
  admitted-from [] l now s pos le f = omega arith
  admitted-from (d ∷ ds) l now s pos le f =
      let v = visit l now d s pos le f in
      spend l now d ds s v pos
        (admitted-from ds v.next.0.level (now + d) v.next.1 pos v.admits.within v.filled)

  -- At a leak rate above zero, from an empty bucket, whatever the times of the requests, none before
  -- the one ahead of it, and whether or not the bucket expires
  -- between two of them: in thousandths, the requests that are let in are no more than the capacity
  -- and what leaks, at the leak rate, over the whole time.
  pub admitted_bound :
      (ds : List ℕ) (now : ℕ) (s : State)
      → 0 < rate
      → cell (bucket_key id) level_field s ≡ none
      → cell (bucket_key id) time_field s ≡ none
      → 1000 * admitted ds now s ≤ cap * 1000 + rate * sum ds
  unfolding admitted
  admitted_bound [] now s pos e f = omega arith
  admitted_bound (d ∷ ds) now s pos e f =
      let v =
        fields-Visit 0 now d none none s (empty-pass level_field d s e)
          (empty-pass time_field d s f) (decide-empty cap rate (now + d) d) in
      omega (
        arith,
        spend 0 now d ds s v pos
            (admitted-from ds v.next.0.level (now + d) v.next.1 pos v.admits.within v.filled),
      )
