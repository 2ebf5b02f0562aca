-- ===== src/Benchmark.antt =====
-- test-benchmark.mjs, which compares the server with and without the rate limiter: both rounds, and
-- the progress bar. The server is a parameter; times and the lines that are printed are left out.
pub mod Rounds
pub mod Limited
mod Tests
use redis_api.Common.{
  ℕ, zero, suc, ◌+◌, ◌-◌, ◌*◌, ◌/◌, ◌&&◌, Option, none, some, List, [], ◌∷◌, ◌++◌, leb, ltb,
  if◌then◌else◌,
}

abbrev pub requests : ℕ
requests = 1000

abbrev pub expected_capacity : ℕ
expected_capacity = 100

abbrev pub expected_leak_rate : ℕ
expected_leak_rate = 50

abbrev pub retry_interval_ms : ℕ
retry_interval_ms = 500

-- `Math.ceil(LEAK_RATE * (RETRY_INTERVAL_MS / 1000)) + 5`
abbrev pub retry_batch : ℕ
retry_batch = (expected_leak_rate * retry_interval_ms + 999) / 1000 + 5

-- `Math.ceil(CAPACITY / LEAK_RATE + 1) * 1000`
abbrev pub flush_wait : ℕ
flush_wait =
    ((expected_capacity + expected_leak_rate + expected_leak_rate - 1) / expected_leak_rate) * 1000

abbrev pub smaller : ℕ → ℕ → ℕ
smaller a b = if leb a b then a else b

abbrev pub repeat : ℕ → ℕ → List ℕ
repeat zero c = []
repeat (suc n) c = c ∷ repeat n c

-- `Math.round((done / total) * width)`
abbrev pub filled : ℕ → ℕ → ℕ → ℕ
filled done total width = (2 * done * width + total) / (2 * total)

-- `bar`; `'░'.repeat` throws a RangeError at a negative count.
unfoldable pub bar : ℕ → ℕ → ℕ → Option (List ℕ)
bar done total width =
    if leb (filled done total width) width
    then some (
        b'['
        ∷ (repeat (filled done total width) 0x2588
            ++ (repeat (width - filled done total width) 0x2591 ++ (b']' ∷ []))))
    else none

-- `statuses.filter(s => s >= 200 && s < 400).length`
unfoldable pub count_ok : List ℕ → ℕ
count_ok [] = 0
count_ok (s ∷ statuses) = (if leb 200 s && ltb s 400 then 1 else 0) + count_ok statuses

-- A server that many requests are sent to at once: their statuses, 0 where `fetch` fails.
pub record Target : Type 1 where
  pub State : Type 0
  pub answers : ℕ → State → List ℕ × State
  pub sleep : ℕ → State → State

-- The variables of the loop.
pub record Progress : Type 0 where
  pub served : ℕ
  pub attempts : ℕ
  pub batches : ℕ

-- How many requests the next batch has.
abbrev pub send_size : ℕ → ℕ
send_size served = smaller (retry_batch * 2) (requests - served + retry_batch)

module _ (t : Target) where
  open t use {State, answers, sleep}

  -- `runBaseline`: how many were allowed
  unfoldable pub run_baseline : State → ℕ × State
  run_baseline s = let (statuses, s') = answers requests s in (count_ok statuses, s')

  abbrev pub counted : Progress → List ℕ × State → Progress × State
  counted p (statuses, s) = (
    record {
      served = smaller (p.served + count_ok statuses) requests;
      attempts = p.attempts + send_size p.served;
      batches = p.batches + 1;
    },
    s,
  )

  -- One round of the loop of `runRateLimited`, up to the sleep.
  unfoldable pub send_batch : Progress × State → Progress × State
  send_batch (p, s) = counted p (answers (send_size p.served) s)

  abbrev pub rested : Progress × State → Progress × State
  rested (p, s) = (p, if ltb p.served requests then sleep retry_interval_ms s else s)

  -- The loop, with fuel: `none` is a loop that has not ended.
  unfoldable pub rate_limited_loop : ℕ → Progress × State → Option (Progress × State)
  rate_limited_loop zero x = none
  rate_limited_loop (suc fuel) x =
      let rest = rate_limited_loop fuel (rested (send_batch x)) in
      if ltb x.0.served requests then rest else some x

  -- `runRateLimited`
  unfoldable pub run_rate_limited : ℕ → State → Option (Progress × State)
  unfolding rate_limited_loop send_batch
  run_rate_limited fuel s =
      rate_limited_loop fuel (record { served = 0; attempts = 0; batches = 0 }, s)

-- The script: the first round on the route `ping`, the wait, and the second round
unfoldable pub run_benchmark :
    (t : Target) (ping : ℕ → t.State → List ℕ × t.State)
    → ℕ
    → t.State
    → ℕ × Option (Progress × t.State)
unfolding run_baseline
run_benchmark t ping fuel s =
    let (allowed, s') = run_baseline (record t { answers = ping }) s in
    (allowed, run_rate_limited t fuel (t.sleep flush_wait s'))
