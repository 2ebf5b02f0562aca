-- ===== src/Redis/Inventory.antt =====
-- The inventory scripts as operations on a count: CHECK_AND_DECREMENT_SCRIPT takes one item where
-- there is one, INCR puts one back, and neither touches another key.
use redis_api.Common.{
  ℕ, suc, ◌≡◌, ◌≢◌, ◌∙◌, refl, none, ◌⊎◌, inl, inr, none, arith, Answer, answer, arith,
}
use redis_api.Common.Int.{ℤ, pos, negsuc}
use redis_api.Text.{Str, ===_refl, ===_ne}
use redis_api.Text.Decimal.{read_ℤ-show, show, show_ℤ}
use redis_api.Redis.Server.{Server, missing, text, number_at, step_answer, step_value}
use redis_api.Redis.Scripts.{count_down, decrement_script}

module _ (r : Server) where
  open r use {State, value, time_to_live}

  -- The key counts `n` items; a missing key counts as the initial number.
  abbrev pub Counts : Str → ℕ → ℕ → State → Type 0
  Counts key initial n s = (value key s ≡ text (show n)) ⊎ ((value key s ≡ missing) × (initial ≡ n))

  -- `s'` holds at every key but `key` what `s` holds.
  abbrev pub SameBut : Str → State → State → Type 0
  SameBut key s s' = (j : Str) → key ≢ j → value j s' ≡ value j s

module _ (r : Server) (key : Str) where
  open r use {State, value, get, set, decr, incr}

  set-here : (v : Str) (s : State) → value key (set key v s) ≡ text v
  set-here v s = r.value-set key v key s ∙ rw (===_refl key) refl

  set-SameBut : (v : Str) (s : State) → SameBut r key s (set key v s)
  set-SameBut v s j h = r.value-set key v j s ∙ rw (===_ne key j h) refl

  count_down-zero : (s : State) → count_down r key (show 0) s ≡ (answer (negsuc 0), s)
  unfolding count_down
  count_down-zero s = rw (read_ℤ-show 0, count_down) refl

  count_down-suc : (n : ℕ) (s : State) → count_down r key (show (suc n)) s ≡ decr key s
  unfolding count_down
  count_down-suc n s = rw (read_ℤ-show (suc n), count_down) refl

  decr-answer :
      (n : ℕ) (s : State) → value key s ≡ text (show (suc n)) → (decr key s).0 ≡ answer (pos n)
  decr-answer n s h = r.decr-answer key s ∙ rw (h, step_answer, number_at, read_ℤ-show (suc n)) refl

  decr-here :
      (n : ℕ) (s : State)
      → value key s ≡ text (show (suc n))
      → value key (decr key s).1 ≡ text (show n)
  unfolding show_ℤ
  decr-here n s h =
      r.value-decr key key s ∙ rw (===_refl key, h, step_value, number_at, read_ℤ-show (suc n)) refl

  decr-SameBut : (s : State) → SameBut r key s (decr key s).1
  decr-SameBut s j h = r.value-decr key j s ∙ rw (===_ne key j h) refl

  script-text :
      (val initial : Str) (s : State)
      → value key s ≡ text val
      → decrement_script r key initial s ≡ count_down r key val s
  unfolding decrement_script
  script-text val initial s h = rw (r.get_lem key s, decrement_script, h) refl

  script-missing :
      (initial : Str) (s : State)
      → value key s ≡ missing
      → decrement_script r key initial s ≡ count_down r key initial (set key initial s)
  unfolding decrement_script
  script-missing initial s h = rw (r.get_lem key s, decrement_script, h) refl

  -- What the script leaves behind.
  abbrev pub Took : ℕ → State → Answer ℤ × State → Type 0
  Took n s (a, s') = (a ≡ answer (pos n)) × (value key s' ≡ text (show n)) × SameBut r key s s'

  decr-Took : (n : ℕ) (s : State) → value key s ≡ text (show (suc n)) → Took n s (decr key s)
  decr-Took n s h = (decr-answer n s h, decr-here n s h, decr-SameBut s)

  -- From a stock of n + 1 the script answers n, leaves n, and changes no other key.
  pub decrement_script-suc :
      (initial n : ℕ) (s : State)
      → Counts r key initial (suc n) s
      → Took n s (decrement_script r key (show initial) s)
  decrement_script-suc initial n s (inl h) =
      rw (script-text (show (suc n)) (show initial) s h, count_down-suc n s) (decr-Took n s h)
  decrement_script-suc initial n s (inr (gone, e)) =
      rw (script-missing (show initial) s gone, e, count_down-suc n (set key (show (suc n)) s))
        (let t = decr-Took n (set key (show (suc n)) s) (set-here (show (suc n)) s) in
          (t.0, t.1, λ j h. t.2 j h ∙ set-SameBut (show (suc n)) s j h))

  -- At a stock of 0 it answers -1 and the count stays.
  pub decrement_script-zero :
      (initial : ℕ) (s : State)
      → value key s ≡ text (show 0)
      → decrement_script r key (show initial) s ≡ (answer (negsuc 0), s)
  decrement_script-zero initial s h = script-text (show 0) (show initial) s h ∙ count_down-zero s

  -- INCR on a present count puts one item back.
  pub incr-Took : (n : ℕ) (s : State) → value key s ≡ text (show n) → Took (suc n) s (incr key s)
  unfolding show_ℤ
  incr-Took n s h = (
    r.incr-answer key s ∙ rw (h, step_answer, number_at, read_ℤ-show n) refl,
    r.value-incr key key s ∙ rw (===_refl key, h, step_value, number_at, read_ℤ-show n) refl,
    λ j h. r.value-incr key j s ∙ rw (===_ne key j h) refl,
  )

  -- Counting down leaves the key without a time to live.
  pub decrement_script-untimed :
      (initial : Str) (s : State)
      → r.time_to_live key s ≡ none
      → r.time_to_live key (decrement_script r key initial s).1 ≡ none
  unfolding decrement_script count_down
  decrement_script-untimed initial s h = ground (
    arith,
    h,
    ===_refl key,
    r.time-decr key key s,
    r.time-set key initial key s,
    r.time-decr key key (r.set key initial s),
  )
