-- ===== src/Limiter/Bounds.antt =====
-- The rate limiter admits no more than its capacity and what has leaked, and the expiry of a bucket
-- forgets nothing.
use native.Mathlib.Nat.{mul-le-mul_left}
use redis_api.Common.{
  ℕ, ◌+◌, ◌-◌, ◌*◌, ◌/◌, ◌≤◌, ◌<◌, ◌≡◌, Bool, true, false, none, some, arith, Bool-cases, leb→le,
  inl, inr,
}
use redis_api.Limiter.{drained, fits, drain_seconds, Verdict, verdict, decide}

abbrev pub one_if : Bool → ℕ
one_if true = 1
one_if false = 0

module _ (cap rate : ℕ) where
  -- A decision on a bucket of level `l`, `d` milliseconds after the last one.
  pub record Admits (l d : ℕ) (v : Verdict) : Type 0 where
    pub spent : 1000 * one_if v.allowed + l ≤ v.level + rate * d
    pub within : v.level ≤ cap * 1000

  pub verdict-Admits : (l d e : ℕ) → l ≤ e + rate * d → e ≤ cap * 1000 → Admits l d (verdict cap e)
  verdict-Admits l d e drop le = elim (Bool-cases (fits e cap)) [
    | inl room ↦ rw room (record { spent = omega arith; within = leb→le _ _ room })
    | inr full ↦ rw full (record { spent = omega arith; within = le })
  ]

  pub drained-forward : (l now d : ℕ) → drained l now (now + d) rate ≡ l - d * rate
  unfolding drained
  drained-forward l now d = let e : now + d - now ≡ d = omega arith in rw e (ground arith)

  pub drained-same : (now : ℕ) → drained 0 now now rate ≡ 0
  unfolding drained
  drained-same now = ground arith

  pub decide-kept :
      (l now d : ℕ) → l ≤ cap * 1000 → Admits l d (decide cap rate (now + d) (some l) (some now))
  unfolding decide
  decide-kept l now d le =
      rw (drained-forward l now d) (verdict-Admits l d (l - d * rate) (omega arith) (omega arith))

  ttl_drains : (d : ℕ) → 0 < rate → drain_seconds cap rate * 1000 ≤ d → cap * 1000 ≤ rate * d
  ttl_drains d pos late =
      let n : ℕ = cap + rate - 1 in
      let whole : cap ≤ rate * (n / rate) = grind arith in
      let more : rate * ((n / rate) * 1000) ≤ rate * d = mul-le-mul_left rate (omega arith) in
      omega arith

  -- A bucket that has expired had drained.
  pub decide-expired :
      (l now d : ℕ)
      → 0 < rate
      → l ≤ cap * 1000
      → drain_seconds cap rate * 1000 ≤ d
      → Admits l d (decide cap rate (now + d) none none)
  unfolding decide
  decide-expired l now d pos le late =
      rw (drained-same (now + d))
        (verdict-Admits l d 0 (omega (arith, ttl_drains d pos late)) (omega arith))

  -- A bucket that holds nothing.
  pub decide-empty : (now d : ℕ) → Admits 0 d (decide cap rate now none none)
  unfolding decide
  decide-empty now d = rw (drained-same now) (verdict-Admits 0 d 0 (omega arith) (omega arith))
