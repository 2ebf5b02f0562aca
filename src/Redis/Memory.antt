-- ===== src/Redis/Memory.antt =====
-- A server in memory, on which the theorems about every server are applied.
use redis_api.Common.{ℕ, ◌*◌, refl, Option, none, some, [], if◌then◌else◌}
use redis_api.Common.Int.{pred_ℤ, suc_ℤ}
use redis_api.Text.{Str, ◌===◌}
use redis_api.Redis.Server.{
  Value, missing, text, get_answer, step_answer, step_value, is_missing, aged, left, Server,
}

pub record Cells : Type 0 where
  pub value : Str → Value
  pub time : Str → Option ℕ

abbrev pub update {ℓ} : {A : Type ℓ} → (Str → A) → Str → A → Str → A
update f k a j = if k === j then a else f j

abbrev pub write : Str → Value → Option ℕ → Cells → Cells
write k v t s = record { value = update s.value k v; time = update s.time k t }

abbrev pub memory : Server
memory = record {
  State = Cells;
  value = λ k s. s.value k;
  time_to_live = λ k s. s.time k;
  get = λ k s. get_answer (s.value k);
  set = λ k v s. write k (text v) none s;
  set_ex = λ k v d s. write k (text v) (some (d * 1000)) s;
  set_px_nx = λ k v d s. (
    is_missing (s.value k),
    write k (if is_missing (s.value k) then text v else s.value k)
        (if is_missing (s.value k) then some d else s.time k) s,
  );
  del = λ k s. (if is_missing (s.value k) then 0 else 1, write k missing none s);
  incr = λ k s. (
    step_answer suc_ℤ (s.value k),
    record s { value = update s.value k (step_value suc_ℤ (s.value k)) },
  );
  decr = λ k s. (
    step_answer pred_ℤ (s.value k),
    record s { value = update s.value k (step_value pred_ℤ (s.value k)) },
  );
  keys = λ p s. [];
  pass =
      λ d s. record { value = λ k. aged d (s.time k) (s.value k); time = λ k. left d (s.time k) };
  get_lem = λ k s. refl;
  value-set = λ k v j s. refl;
  time-set = λ k v j s. refl;
  nx-answer = λ k v d s. refl;
  value-nx = λ k v d j s. refl;
  time-nx = λ k v d j s. refl;
  del-answer = λ k s. refl;
  value-del = λ k j s. refl;
  time-del = λ k j s. refl;
  incr-answer = λ k s. refl;
  value-incr = λ k j s. refl;
  time-incr = λ k j s. refl;
  decr-answer = λ k s. refl;
  value-decr = λ k j s. refl;
  time-decr = λ k j s. refl;
  value-pass = λ d j s. refl;
  time-pass = λ d j s. refl;
}

-- No key is set.
abbrev pub fresh : Cells
fresh = record { value = λ k. missing; time = λ k. none }
