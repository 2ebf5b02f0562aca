-- ===== src/Limiter/HashServer.antt =====
-- The commands on hashes that LEAKY_BUCKET_SCRIPT runs, with their documented behaviour. Levels are
-- kept in thousandths and times in milliseconds, as numbers.
use redis_api.Common.{ℕ, ◌*◌, ◌≡◌, Option, none, some, leb, if◌then◌else◌}
use redis_api.Text.{Str, ◌===◌}

-- What is left of a field after `d` milliseconds.
abbrev pub outlived : ℕ → Option ℕ → Option ℕ → Option ℕ
outlived d none v = v
outlived d (some t) v = if leb t d then none else v

pub record Hashes : Type 1 where
  pub State : Type 0
  pub cell : Str → Str → State → Option ℕ
  -- milliseconds to live
  pub time_to_live : Str → State → Option ℕ
  -- HMGET key f g, HSET key f a g b, EXPIRE key seconds
  pub hmget : Str → Str → Str → State → Option ℕ × Option ℕ
  pub hset : Str → Str → ℕ → Str → ℕ → State → State
  pub expire : Str → ℕ → State → State
  pub pass : ℕ → State → State
  pub hmget_lem : (k f g : Str) (s : State) → hmget k f g s ≡ (cell k f s, cell k g s)
  -- the later field of one HSET wins
  pub cell-hset :
      (k f g : Str) (a b : ℕ) (j e : Str) (s : State)
      → cell j e (hset k f a g b s) ≡ (
          if k === j
          then if g === e then some b else if f === e then some a else cell j e s
          else cell j e s)
  pub cell-expire : (k : Str) (t : ℕ) (j e : Str) (s : State) → cell j e (expire k t s) ≡ cell j e s
  pub time-expire : (k : Str) (t : ℕ) (s : State) → time_to_live k (expire k t s) ≡ some (t * 1000)
  pub cell-pass :
      (d : ℕ) (j e : Str) (s : State)
      → cell j e (pass d s) ≡ outlived d (time_to_live j s) (cell j e s)
