-- ===== src/Limiter/Memory.antt =====
-- A hash server in memory, on which the theorems about the limiter are applied.
use redis_api.Common.{ℕ, ◌-◌, ◌*◌, ◌≡◌, refl, Option, none, some, leb, if◌then◌else◌}
use redis_api.Text.{Str, ◌===◌, ===_refl}
use redis_api.Limiter.HashServer.{Hashes, outlived}

pub record Cells : Type 0 where
  pub cell : Str → Str → Option ℕ
  pub time : Str → Option ℕ

abbrev pub expire_at : Str → ℕ → Cells → Cells
expire_at k t s = record s { time = λ j. if k === j then some (t * 1000) else s.time j }

abbrev pub left : ℕ → Option ℕ → Option ℕ
left d none = none
left d (some t) = if leb t d then none else some (t - d)

pub time-expire_at : (k : Str) (t : ℕ) (s : Cells) → (expire_at k t s).time k ≡ some (t * 1000)
time-expire_at k t s = rw (===_refl k) refl

abbrev pub memory : Hashes
memory = record {
  State = Cells;
  cell = λ k f s. s.cell k f;
  time_to_live = λ k s. s.time k;
  hmget = λ k f g s. (s.cell k f, s.cell k g);
  hset = λ k f a g b s. record s {
    cell = λ j e.
        if k === j
        then if g === e then some b else if f === e then some a else s.cell j e
        else s.cell j e;
  };
  expire = expire_at;
  pass = λ d s. record {
    cell = λ k f. outlived d (s.time k) (s.cell k f);
    time = λ k. left d (s.time k);
  };
  hmget_lem = λ k f g s. refl;
  cell-hset = λ k f g a b j e s. refl;
  cell-expire = λ k t j e s. refl;
  time-expire = time-expire_at;
  cell-pass = λ d j e s. refl;
}

-- No bucket is there.
abbrev pub empty : Cells
empty = record { cell = λ k f. none; time = λ k. none }
