-- ===== src/Redis/Server.antt =====
-- The commands on string keys that src/redis/redis.service.ts sends, or runs in its Lua scripts.
use redis_api.Common.{
  ℕ, ◌-◌, ◌≡◌, Bool, true, false, Option, none, some, List, Answer, answer, error, leb,
  if◌then◌else◌,
}
use redis_api.Common.Int.{ℤ, pos, pred_ℤ, suc_ℤ}
use redis_api.Text.{Str, ◌===◌}
use redis_api.Text.Decimal.{read_ℤ, show_ℤ}

-- What a key holds. `other` is a value that is no string, such as a hash.
pub data Value : Type 0 where
  missing : Value
  text : Str → Value
  other : Value

abbrev pub get_answer : Value → Answer (Option Str)
get_answer missing = answer none
get_answer (text t) = answer (some t)
get_answer other = error

-- INCR and DECR take a missing key for 0, and refuse what is no integer.
abbrev pub number_at : Value → Option ℤ
number_at missing = some (pos 0)
number_at (text t) = read_ℤ t
number_at other = none

abbrev pub step_answer : (ℤ → ℤ) → Value → Answer ℤ
step_answer f v = elim (number_at v) [ none ↦ error | some n ↦ answer (f n) ]

abbrev pub step_value : (ℤ → ℤ) → Value → Value
step_value f v = elim (number_at v) [ none ↦ v | some n ↦ text (show_ℤ (f n)) ]

abbrev pub is_missing : Value → Bool
is_missing missing = true
is_missing _ = false

-- A key with `some t` to live is gone when `t` milliseconds have passed.
abbrev pub aged : ℕ → Option ℕ → Value → Value
aged d none v = v
aged d (some t) v = if leb t d then missing else v

abbrev pub left : ℕ → Option ℕ → Option ℕ
left d none = none
left d (some t) = if leb t d then none else some (t - d)

-- The server, seen through what each key holds and the time that it has to live. A command changes
-- no key but its own. Integers out of the 64-bit range are left aside.
pub record Server : Type 1 where
  pub State : Type 0
  pub value : Str → State → Value
  pub time_to_live : Str → State → Option ℕ
  -- GET key, SET key value, SET key value EX seconds, SET key value PX milliseconds NX
  pub get : Str → State → Answer (Option Str)
  pub set : Str → Str → State → State
  pub set_ex : Str → Str → ℕ → State → State
  pub set_px_nx : Str → Str → ℕ → State → Bool × State
  -- DEL key, INCR key, DECR key, KEYS pattern
  pub del : Str → State → ℕ × State
  pub incr : Str → State → Answer ℤ × State
  pub decr : Str → State → Answer ℤ × State
  pub keys : Str → State → List Str
  -- `pass d`: `d` milliseconds go by
  pub pass : ℕ → State → State
  pub get_lem : (k : Str) (s : State) → get k s ≡ get_answer (value k s)
  pub value-set :
      (k v j : Str) (s : State) → value j (set k v s) ≡ (if k === j then text v else value j s)
  pub time-set :
      (k v j : Str) (s : State)
      → time_to_live j (set k v s) ≡ (if k === j then none else time_to_live j s)
  pub nx-answer : (k v : Str) (d : ℕ) (s : State) → (set_px_nx k v d s).0 ≡ is_missing (value k s)
  pub value-nx :
      (k v : Str) (d : ℕ) (j : Str) (s : State)
      → value j (set_px_nx k v d s).1
        ≡ (if k === j then if is_missing (value k s) then text v else value k s else value j s)
  pub time-nx :
      (k v : Str) (d : ℕ) (j : Str) (s : State)
      → time_to_live j (set_px_nx k v d s).1 ≡ (
          if k === j
          then if is_missing (value k s) then some d else time_to_live k s
          else time_to_live j s)
  pub del-answer : (k : Str) (s : State) → (del k s).0 ≡ (if is_missing (value k s) then 0 else 1)
  pub value-del :
      (k j : Str) (s : State) → value j (del k s).1 ≡ (if k === j then missing else value j s)
  pub time-del :
      (k j : Str) (s : State)
      → time_to_live j (del k s).1 ≡ (if k === j then none else time_to_live j s)
  pub incr-answer : (k : Str) (s : State) → (incr k s).0 ≡ step_answer suc_ℤ (value k s)
  pub value-incr :
      (k j : Str) (s : State)
      → value j (incr k s).1 ≡ (if k === j then step_value suc_ℤ (value k s) else value j s)
  pub time-incr : (k j : Str) (s : State) → time_to_live j (incr k s).1 ≡ time_to_live j s
  pub decr-answer : (k : Str) (s : State) → (decr k s).0 ≡ step_answer pred_ℤ (value k s)
  pub value-decr :
      (k j : Str) (s : State)
      → value j (decr k s).1 ≡ (if k === j then step_value pred_ℤ (value k s) else value j s)
  pub time-decr : (k j : Str) (s : State) → time_to_live j (decr k s).1 ≡ time_to_live j s
  pub value-pass :
      (d : ℕ) (j : Str) (s : State) → value j (pass d s) ≡ aged d (time_to_live j s) (value j s)
  pub time-pass :
      (d : ℕ) (j : Str) (s : State) → time_to_live j (pass d s) ≡ left d (time_to_live j s)
