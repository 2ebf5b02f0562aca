-- ===== src/RateLimiterTest.antt =====
-- test-rate-limiter.mjs, which hits a running server one request after the other and prints which ones
-- were let in. The server, which answers every request, is a parameter; the headings that are printed are left out.
pub mod Allowed
mod Tests
use redis_api.Common.{ℕ, zero, suc, ◌+◌, ◌*◌, ◌/◌, Bool, Option, List, [], ◌∷◌}

abbrev pub script_capacity : ℕ
script_capacity = 10

abbrev pub script_leak_rate : ℕ
script_leak_rate = 2

-- `capacity / leak_rate + 1`, in seconds
abbrev pub drain_sec : ℕ
drain_sec = script_capacity / script_leak_rate + 1

-- `res.ok`, and `level` of the body where it is a number
pub record Response : Type 0 where
  pub ok : Bool
  pub level : Option ℕ

pub record Target : Type 1 where
  pub State : Type 0
  pub fetch : State → Response × State
  pub sleep : ℕ → State → State

-- A line that is printed: the number of the request, whether it says ALLOWED, and the level.
pub record Line : Type 0 where
  pub number : ℕ
  pub allowed : Bool
  pub level : Option ℕ

abbrev pub line_of : ℕ → Response → Line
line_of n res = record { number = n; allowed = res.ok; level = res.level }

module _ (t : Target) where
  open t use {State, fetch, sleep}

  -- `hit`, with the variable `seq`
  unfoldable pub hit : ℕ × State → Line × (ℕ × State)
  hit (seq, s) = let (res, s') = fetch s in (line_of (seq + 1) res, (seq + 1, s'))

  -- The `for` loops of both phases
  unfoldable pub hits : ℕ → ℕ × State → List Line × (ℕ × State)
  unfolding hit
  hits zero x = ([], x)
  hits (suc n) x = let (l, x') = hit x in let (ls, x'') = hits n x' in (l ∷ ls, x'')

  abbrev waits : List Line × (ℕ × State) → List Line × (ℕ × State)
  waits (ls, (seq, s)) = (ls, (seq, sleep (drain_sec * 1000) s))

  abbrev then : List Line × (ℕ × State) → (List Line × List Line) × State
  then (burst, x) = let (recovered, (seq, s)) = hits 5 x in ((burst, recovered), s)

  -- The three phases, with the lines of the first and of the last.
  unfoldable pub run_trial : State → (List Line × List Line) × State
  unfolding hits
  run_trial s = then (waits (hits 15 (0, s)))
