-- ===== src/Benchmark/Rounds.antt =====
-- When the rounds of test-benchmark.mjs end.
use native.Mathlib.Nat.{mul-suc, mul-zero}
use redis_api.Common.{
  ℕ, zero, suc, ◌+◌, ◌-◌, ◌*◌, ◌≤◌, ◌<◌, ◌≡◌, refl, inl, inr, true, false, sym, Option, none, some,
  length, ltb, arith, Bool-cases,
}
use redis_api.Benchmark.{
  requests, retry_batch, retry_interval_ms, send_size, repeat, count_ok, Target, Progress,
  send_batch, rested, rate_limited_loop, run_rate_limited,
}

length-repeat : (n c : ℕ) → length (repeat n c) ≡ n
length-repeat zero c = refl
length-repeat (suc n) c = omega (arith, length-repeat n c)

ltb-below : (n : ℕ) → n < requests → ltb n requests ≡ true
ltb-below n less = ground arith

ltb-above : (n : ℕ) → requests ≤ n → ltb n requests ≡ false
ltb-above n le = ground arith

size-least : (n : ℕ) → n < requests → retry_batch ≤ send_size n
size-least n less = ground arith

module _ (t : Target) where
  open t use {State, answers, sleep}

  -- What a round does to the variables.
  send_batch-served :
      (quota : ℕ) (p : Progress) (s : State)
      → quota ≤ count_ok (answers (send_size p.served) s).0
      → p.served < requests
      → (requests - (send_batch t (p, s)).0.served ≤ requests - p.served - quota)
        × ((send_batch t (p, s)).0.served ≤ requests)
        × ((send_batch t (p, s)).0.batches ≡ p.batches + 1)
  unfolding send_batch
  send_batch-served quota p s some_ok more = ground arith

  -- The loop has ended, with all requests served, in at most so many rounds.
  abbrev pub AllServed : ℕ → Option (Progress × State) → Type 0
  AllServed most none = ⊥
  AllServed most (some (p, s)) = (p.served ≡ requests) × (p.batches ≤ most)

  further_on : (m n : ℕ) (x : Option (Progress × State)) → n ≤ m → AllServed n x → AllServed m x
  further_on m n none le h = h
  further_on m n (some (p, s)) le h = (h.0, omega (arith, le, h.1))

  -- In the states of `P`, every batch has at least `quota` requests served.
  module _ (P : State → Type 0) (quota : ℕ)
      (serves : (n : ℕ) (s : State)
        → P s
        → retry_batch ≤ n
        → (quota ≤ count_ok (answers n s).0) × P (sleep retry_interval_ms (answers n s).1)) where
    pub loop-AllServed :
        (fuel rounds : ℕ) (p : Progress) (s : State)
        → (p.served < requests → P s)
        → p.served ≤ requests
        → requests - p.served ≤ quota * rounds
        → rounds < fuel
        → AllServed (p.batches + rounds) (rate_limited_loop t fuel (p, s))
    unfolding rate_limited_loop send_batch
    loop-AllServed zero rounds p s inv le need enough = absurd (omega (arith, enough))
    loop-AllServed (suc fuel) zero p s inv le need enough =
        rw (ltb-above p.served (omega (arith, need, mul-zero quota)))
          (omega (arith, le, need, mul-zero quota), omega arith)
    loop-AllServed (suc fuel) (suc rounds) p s inv le need enough =
        elim (Bool-cases (ltb p.served requests)) [
          | inr full ↦ rw full (ground arith, omega arith)
          | inl more ↦
              let less : p.served < requests = ground arith in
              let (met, on) = serves (send_size p.served) s (inv less) (size-least p.served less) in
              let (further, within, rounds_on) = send_batch-served quota p s met less in
              rw more (
                further_on (p.batches + suc rounds) (p.batches + 1 + rounds) _ (omega arith) (
                  rw (sym rounds_on) (
                    loop-AllServed fuel rounds (send_batch t (p, s)).0
                      (rested t (send_batch t (p, s))).1 (λ l. rw (ltb-below _ l) on) within
                      (omega (arith, further, need, mul-suc quota rounds))
                      (omega (arith, enough)))))
        ]

  -- Against a server that serves at least one request of every batch, the rate-limited round ends: with
  -- all 1000 requests served, after at most 1000 batches, whatever the fuel above 1000.
  run_rate_limited-AllServed :
      (fuel : ℕ) (s : State)
      → ((n : ℕ) (s' : State) → 0 < n → 0 < count_ok (answers n s').0)
      → 1000 < fuel
      → AllServed 1000 (run_rate_limited t fuel s)
  unfolding run_rate_limited
  run_rate_limited-AllServed fuel s served enough =
      loop-AllServed (λ s. Unit) 1 (λ n s' u le. (served n s' (omega (arith, le)), tt)) fuel 1000
        (record { served = 0; attempts = 0; batches = 0 }) s (λ l. tt) (omega arith) (omega arith)
        (omega (arith, enough))

  -- A round without an answer that counts serves nothing.
  send_batch-refused :
      ((n : ℕ) (s : State) → count_ok (answers n s).0 ≡ 0)
      → (p : Progress) (s : State) → p.served < requests
      → (send_batch t (p, s)).0.served < requests
  unfolding send_batch
  send_batch-refused refused p s less = ground (arith, refused (send_size p.served) s)

  loop-stuck :
      ((n : ℕ) (s : State) → count_ok (answers n s).0 ≡ 0)
      → (fuel : ℕ) (p : Progress) (s : State) → p.served < requests
      → rate_limited_loop t fuel (p, s) ≡ none
  unfolding rate_limited_loop
  loop-stuck refused zero p s less = refl
  loop-stuck refused (suc fuel) p s less = rw (ltb-below p.served less) (
      loop-stuck refused fuel (send_batch t (p, s)).0 (rested t (send_batch t (p, s))).1
        (send_batch-refused refused p s less))

  -- Against a server that answers no request with a status from 200 to 399, the rate-limited round does not
  -- end, whatever the fuel.
  run_rate_limited-stuck :
      (fuel : ℕ) (s : State)
      → ((n : ℕ) (s' : State) → count_ok (answers n s').0 ≡ 0)
      → run_rate_limited t fuel s ≡ none
  unfolding run_rate_limited
  run_rate_limited-stuck fuel s refused =
      loop-stuck refused fuel (record { served = 0; attempts = 0; batches = 0 }) s (omega arith)
