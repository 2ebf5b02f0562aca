-- ===== src/Auth/World.antt =====
-- What stands behind the calls of src/auth: the bit arrays of Redis and an identity server that is
-- reached by HTTP, neither code of the repository, and how calls to them fail.
use redis_api.Common.{
  ℕ, ◌≡◌, ◌&&◌, Option, some, List, [], ◌∷◌, Answer, answer, error, ◌==◌, if◌then◌else◌,
}
use redis_api.Text.{Str, ◌===◌}
use redis_api.Effect.{Outcome, run}
use redis_api.Auth.{
  AdminToken, HttpRequest, Response, read_token, write_token, getbit, setbit, Call, bit, fetch, now,
  Reply, Method,
}

-- SETBIT changes one bit, and answers with the old one. A bit that was never set is 0.
pub record Bits : Type 1 where
  pub State : Type 0
  pub bit_at : Str → ℕ → State → ℕ
  pub get_bit : Str → ℕ → State → ℕ
  pub set_bit : Str → ℕ → ℕ → State → ℕ × State
  pub get_bit_lem : (k : Str) (i : ℕ) (s : State) → get_bit k i s ≡ bit_at k i s
  pub bit_at-set_bit :
      (k : Str) (i v : ℕ) (j : Str) (p : ℕ) (s : State)
      → bit_at j p (set_bit k i v s).1 ≡ (if k === j && i == p then v else bit_at j p s)

-- An HTTP server answers each request from its state.
pub record Provider : Type 1 where
  pub State : Type 0
  pub respond : HttpRequest → State → Response × State

pub record Systems : Type 1 where
  pub bits : Bits
  pub provider : Provider

pub data Fault : Type 0 where
  sound unsent unanswered : Fault

module _ (y : Systems) where
  pub record World : Type 0 where
    pub bits : y.bits.State
    pub provider : y.provider.State
    pub clock : ℕ
    pub admin_token : Option AdminToken
    pub faults : List Fault

  in_bits : World → ℕ × y.bits.State → Answer ℕ × World
  in_bits w (b, s) = (answer b, record w { bits = s })

  in_provider : World → Response × y.provider.State → Answer Response × World
  in_provider w (r, s) = (answer r, record w { provider = s })

  unfoldable pub execute : (c : Call) → World → Answer (Reply c) × World
  unfolding in_bits in_provider
  execute (bit getbit k i) w = (answer (y.bits.get_bit k i w.bits), w)
  execute (bit (setbit v) k i) w = in_bits w (y.bits.set_bit k i v w.bits)
  execute (fetch q) w = in_provider w (y.provider.respond q w.provider)
  execute now w = (answer w.clock, w)
  execute read_token w = (answer w.admin_token, w)
  execute (write_token t) w = (answer tt, record w { admin_token = some t })

  abbrev pub meet : Fault → (c : Call) → World → Answer (Reply c) × World
  meet sound c w = execute c w
  meet unsent c w = (error, w)
  meet unanswered c w = (error, (execute c w).1)

  abbrev pub next_fault : List Fault → Fault
  next_fault [] = sound
  next_fault (f ∷ fs) = f

  abbrev pub later_faults : List Fault → List Fault
  later_faults [] = []
  later_faults (f ∷ fs) = fs

  -- A call to Redis or to the identity server meets the next fault; the clock and the field meet none.
  unfoldable pub perform : (c : Call) → World → Answer (Reply c) × World
  unfolding execute
  perform now w = execute now w
  perform read_token w = execute read_token w
  perform (write_token t) w = execute (write_token t) w
  perform c w = meet (next_fault w.faults) c (record w { faults = later_faults w.faults })

  abbrev pub alone : {A : Type 0} → Method A → World → Outcome A × World
  alone = run perform
