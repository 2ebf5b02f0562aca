-- ===== src/Orders/Patience.antt =====
-- How long `flush` of order-consumer/src/orders/order.service.ts goes on.
use redis_api.Common.{
  ℕ, zero, suc, ◌+◌, ◌-◌, ◌*◌, ◌^◌, ◌≤◌, ◌≡◌, ◌∙◌, refl, sym, ap, ◌⊎◌, inl, inr, Bool, true, false,
  List, [], ◌∷◌, ◌++◌, append_assoc, append-nil, map, take, Answer, answer, error, arith,
}
use redis_api.Effect.{Outcome, returned, run, ◌>>=◌}
use redis_api.Orders.{
  commit_step, Event, Order, to_order, commits, commit_offsets, Attempt, back_off, commit_end,
  save_end, save_call, try_batch, next_attempt, flush_loop, flush, retry_base_ms, max_retries,
  Method,
}
use redis_api.Orders.World.{
  Systems, World, Fault, sound, unsent, unanswered, execute, meet, next_fault, perform, alone,
}

abbrev pub delay : ℕ → ℕ
delay attempt = retry_base_ms * 2 ^ (attempt - 1)

-- The waits of `n` attempts that all fail, from number `attempt` on.
pub delays : ℕ → ℕ → List ℕ
delays zero attempt = []
delays (suc n) attempt = delay attempt ∷ delays n (attempt + 1)

module _ (y : Systems) where
  saved-waited :
      (f : Fault) (stored : Bool) (os : List Order) (w : World y)
      → (meet y f (save_call stored os) w).1.waited ≡ w.waited
  unfolding execute
  saved-waited sound true os w = refl
  saved-waited sound false os w = refl
  saved-waited unsent stored os w = refl
  saved-waited unanswered true os w = refl
  saved-waited unanswered false os w = refl

  committed-waited :
      (f : Fault) (es : _) (w : World y) → (meet y f (commit_offsets es) w).1.waited ≡ w.waited
  unfolding execute
  committed-waited sound es w = refl
  committed-waited unsent es w = refl
  committed-waited unanswered es w = refl

  save_waited :
      (stored : Bool) (os : List Order) (w : World y)
      → (perform y (save_call stored os) w).1.waited ≡ w.waited
  unfolding perform
  save_waited true os w = saved-waited (next_fault y w.faults) true os _
  save_waited false os w = saved-waited (next_fault y w.faults) false os _

  commit_waited : (es : _) (w : World y) → (perform y (commit_offsets es) w).1.waited ≡ w.waited
  unfolding perform
  commit_waited es w = committed-waited (next_fault y w.faults) es _

  module _ (e : Event) (es : List Event) where
    abbrev save : Bool → World y → Answer (Unit {0}) × World y
    save stored w = perform y (save_call stored (map to_order (e ∷ es))) w

    abbrev commit : World y → Answer (Unit {0}) × World y
    commit w = perform y (commit_offsets (commits (e ∷ es))) w

    -- The save was not answered; or it was, and the commit was not, after which the rows count as stored.
    abbrev pub Fails : Bool → World y → Bool → World y → Type 0
    Fails stored w stored' w' =
        ((save stored w ≡ (error, w')) × (stored' ≡ stored))
        ⊎ (v : World y) × (save stored w ≡ (answer tt, v))
          × (commit v ≡ (error, w'))
          × (stored' ≡ true)

    -- The save and the commit were both answered.
    abbrev pub Succeeds : Bool → World y → World y → Type 0
    Succeeds stored w w' =
        (v : World y) × (save stored w ≡ (answer tt, v)) × (commit v ≡ (answer tt, w'))

    abbrev pub pause : ℕ → World y → World y
    pause attempt w = record w { waited = w.waited ++ delay attempt ∷ [] }

    -- Of `n` attempts from number `attempt` on, `k` fail, with a wait after each; then one succeeds, and
    -- the result is true, or there is none left, and the result is false.
    abbrev pub Attempts : ℕ → ℕ → Bool → World y → ℕ → Outcome Bool × World y → Type 0
    Attempts zero attempt stored w k x = (k ≡ 0) × (x ≡ (returned false, w))
    Attempts (suc n) attempt stored w k x =
        ((w' : World y) × Succeeds stored w w' × (k ≡ 0) × (x ≡ (returned true, w')))
        ⊎ (j : ℕ) × (stored' : Bool) × (w' : World y) × Fails stored w stored' w'
          × (k ≡ suc j)
          × Attempts n (attempt + 1) stored' (pause attempt w') j x

    Onward : ℕ → ℕ → Type 0
    Onward n attempt =
        (stored : Bool) (w : World y)
        → (k : ℕ) × Attempts n attempt stored w k (alone y (flush_loop (e ∷ es) n attempt stored) w)

    abbrev again : ℕ → ℕ → Attempt → Method Bool
    again n attempt = next_attempt (λ st. flush_loop (e ∷ es) n (attempt + 1) st)

    after_commit :
        (n attempt : ℕ) (stored : Bool) (w v : World y)
        → Onward n (attempt + 1)
        → save stored w ≡ (answer tt, v)
        → (x : Answer (Unit {0}) × World y) → commit v ≡ x
        → (k : ℕ) × Attempts
            (suc n)
            attempt
            stored
            w
            k
            (run (perform y) (commit_end attempt x.0 >>= again n attempt) x.1)
    unfolding Onward commit_end back_off perform execute
    after_commit n attempt stored w v ih s (answer tt, w') c = (0, inl (w', (v, s, c), refl, refl))
    after_commit n attempt stored w v ih s (error, w') c =
        let (j, rest) = ih true (pause attempt w') in
        (suc j, inr (j, true, w', inr (v, s, c, refl), refl, rest))

    after_error :
        (n attempt : ℕ) (stored : Bool) (w w' : World y)
        → Onward n (attempt + 1)
        → save stored w ≡ (error, w')
        → (k : ℕ) × Attempts
            (suc n)
            attempt
            stored
            w
            k
            (run (perform y) (back_off attempt stored >>= again n attempt) w')
    unfolding Onward back_off perform execute
    after_error n attempt stored w w' ih s =
        let (j, rest) = ih stored (pause attempt w') in
        (suc j, inr (j, stored, w', inl (s, refl), refl, rest))

    after_save :
        (n attempt : ℕ) (stored : Bool) (w : World y)
        → Onward n (attempt + 1)
        → (x : Answer (Unit {0}) × World y) → save stored w ≡ x
        → (k : ℕ) × Attempts
            (suc n)
            attempt
            stored
            w
            k
            (run (perform y) (save_end (e ∷ es) attempt stored x.0 >>= again n attempt) x.1)
    unfolding save_end commit_step
    after_save n attempt stored w ih (answer tt, v) s =
        after_commit n attempt stored w v ih s (commit v) refl
    after_save n attempt stored w ih (error, w') s = after_error n attempt stored w w' ih s

    loop-Attempts : (n attempt : ℕ) → Onward n attempt
    unfolding Onward flush_loop try_batch
    loop-Attempts zero attempt stored w = (0, (refl, refl))
    loop-Attempts (suc n) attempt stored w =
        after_save n attempt stored w (loop-Attempts n (attempt + 1)) (save stored w) refl

    Fails-waited :
        (stored stored' : Bool) (w w' : World y) → Fails stored w stored' w' → w'.waited ≡ w.waited
    Fails-waited stored stored' w w' (inl (s, same)) =
        ap (λ (x : Answer (Unit {0}) × World y). x.1.waited) (sym s)
        ∙ save_waited stored (map to_order (e ∷ es)) w
    Fails-waited stored stored' w w' (inr (v, s, c, same)) =
        ap (λ (x : Answer (Unit {0}) × World y). x.1.waited) (sym c)
        ∙ commit_waited (commits (e ∷ es)) v
        ∙ ap (λ (x : Answer (Unit {0}) × World y). x.1.waited) (sym s)
        ∙ save_waited stored (map to_order (e ∷ es)) w

    -- The waits after `k` failed attempts, of `n` from number `attempt` on, and whether one succeeded.
    abbrev pub Ended : ℕ → ℕ → List ℕ → ℕ → Outcome Bool × World y → Type 0
    Ended n attempt before k (o, w) =
        (w.waited ≡ before ++ take k (delays n attempt))
        × (((o ≡ returned true) × (k + 1 ≤ n)) ⊎ ((o ≡ returned false) × (k ≡ n)))

    Succeeds-waited : (stored : Bool) (w w' : World y) → Succeeds stored w w' → w'.waited ≡ w.waited
    Succeeds-waited stored w w' (v, s, c) =
        ap (λ (x : Answer (Unit {0}) × World y). x.1.waited) (sym c)
        ∙ commit_waited (commits (e ∷ es)) v
        ∙ ap (λ (x : Answer (Unit {0}) × World y). x.1.waited) (sym s)
        ∙ save_waited stored (map to_order (e ∷ es)) w

    later :
        (n attempt j : ℕ) (before : List ℕ) (w' : World y) (x : Outcome Bool × World y)
        → w'.waited ≡ before
        → Ended n (attempt + 1) (w'.waited ++ delay attempt ∷ []) j x
        → Ended (suc n) attempt before (suc j) x
    unfolding delays
    later n attempt j before w' (o, w) e (waits, result) = (
      waits
          ∙ append_assoc w'.waited (delay attempt ∷ []) _
          ∙ ap (λ l. l ++ delay attempt ∷ take j (delays n (attempt + 1))) e,
      elim result [
        | inl (won, few) ↦ inl (won, omega arith)
        | inr (lost, all) ↦ inr (lost, omega arith)
      ],
    )

    Attempts-Ended :
        (n attempt : ℕ) (stored : Bool) (w : World y) (k : ℕ) (x : Outcome Bool × World y)
        → Attempts n attempt stored w k x
        → Ended n attempt w.waited k x
    unfolding delays
    Attempts-Ended zero attempt stored w k x (none, e) =
        rw (none, e) (sym (append-nil w.waited), inr (refl, refl))
    Attempts-Ended (suc n) attempt stored w k x (inl (w', won, none, e)) =
        rw (none, e)
          (Succeeds-waited stored w w' won ∙ sym (append-nil w.waited), inl (refl, omega arith))
    Attempts-Ended (suc n) attempt stored w k x (inr (j, stored', w', broke, more, rest)) =
        rw more (
          later n attempt j w.waited w' x (Fails-waited stored stored' w w' broke)
            (Attempts-Ended n (attempt + 1) stored' (pause attempt w') j x rest))

  -- Whatever the batch of one event or more, and whatever fails, `flush` ends without throwing after
  -- at most five attempts, each a save and, where the save is answered, a commit of the batch's
  -- offsets. The attempts that failed are those of which the save or the commit was not answered, and
  -- each is followed by a wait, of 200, 400, 800, 1600 and 3200 milliseconds in this order; it ends
  -- with true at the first of which both were answered, and with false where there is none among the
  -- five.
  pub flush-Ended :
      (e : Event) (es : List Event) (w : World y)
      → (k : ℕ) × Attempts e es max_retries 1 false w k (alone y (flush (e ∷ es)) w)
        × ((alone y (flush (e ∷ es)) w).1.waited
            ≡ w.waited ++ take k (200 ∷ 400 ∷ 800 ∷ 1600 ∷ 3200 ∷ []))
        × ((((alone y (flush (e ∷ es)) w).0 ≡ returned true) × (k + 1 ≤ max_retries))
            ⊎ (((alone y (flush (e ∷ es)) w).0 ≡ returned false) × (k ≡ max_retries)))
  unfolding flush delays Onward
  flush-Ended e es w =
      let (k, tries) = loop-Attempts e es 5 1 false w in
      let (waits, result) = Attempts-Ended e es 5 1 false w k (alone y (flush (e ∷ es)) w) tries in
      (k, tries, waits, result)
