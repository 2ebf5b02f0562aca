-- ===== src/Effect.antt =====
-- Asynchronous methods as programs of calls. Each `await` of the source on another system (Redis,
-- Kafka, Keycloak, a timer) is one call; between two calls other requests may run.
-- `C` is what the method may call, and `R c` what the call `c` resolves to.
use redis_api.Common.{ℕ, ◌≡◌, refl, ap, Answer, answer, error}
use redis_api.Text.{Str}

-- What a method throws: an HttpException with its status and message, or the error of a call.
pub data Exception : Type 0 where
  rejected : Exception
  http : ℕ → Str → Exception

pub data Outcome {ℓ} (A : Type ℓ) : Type ℓ where
  returned : A → Outcome A
  thrown : Exception → Outcome A

pub data Prog (C : Type 0) (R : C → Type 0) (A : Type 0) : Type 0 where
  ret : A → Prog C R A
  throw : Exception → Prog C R A
  call : (c : C) → (Answer (R c) → Prog C R A) → Prog C R A

module _ {C : Type 0} {R : C → Type 0} where
  infixl 5 ◌>>=◌ ◌>>◌
  abbrev pub ◌>>=◌ : {A B : Type 0} → Prog C R A → (A → Prog C R B) → Prog C R B
  ret a >>= f = f a
  throw e >>= f = throw e
  call c k >>= f = call c (λ r. k r >>= f)

  abbrev pub ◌>>◌ : {A B : Type 0} → Prog C R A → Prog C R B → Prog C R B
  m >> n = m >>= λ _. n

  abbrev pub settle : {A : Type 0} → Answer A → Prog C R A
  settle (answer a) = ret a
  settle error = throw rejected

  -- `await` of one call
  abbrev pub request : (c : C) → Prog C R (R c)
  request c = call c settle

  -- `try { m } finally { cleanup }`
  abbrev pub try_finally : {A : Type 0} → Prog C R A → Prog C R (Unit {0}) → Prog C R A
  try_finally (ret a) cleanup = cleanup >> ret a
  try_finally (throw e) cleanup = cleanup >> throw e
  try_finally (call c k) cleanup = call c (λ r. try_finally (k r) cleanup)

  -- `try { m } catch (err) { handler(err) }`
  abbrev pub try_catch : {A : Type 0} → Prog C R A → (Exception → Prog C R A) → Prog C R A
  try_catch (ret a) handler = ret a
  try_catch (throw e) handler = handler e
  try_catch (call c k) handler = call c (λ r. try_catch (k r) handler)

-- A method run to its end with nothing in between, by a handler of the calls.
module _ {C : Type 0} {R : C → Type 0} {W : Type 0} (handle : (c : C) → W → Answer (R c) × W) where
  abbrev pub run : {A : Type 0} → Prog C R A → W → Outcome A × W
  run (ret a) w = (returned a, w)
  run (throw e) w = (thrown e, w)
  run (call c k) w = run (k (handle c w).0) (handle c w).1

  abbrev pub continue : {A B : Type 0} → (A → Prog C R B) → Outcome A × W → Outcome B × W
  continue f (returned a, w) = run (f a) w
  continue f (thrown e, w) = (thrown e, w)

  pub run-bind :
      {A B : Type 0} (m : Prog C R A) (f : A → Prog C R B) (w : W)
      → run (m >>= f) w ≡ continue f (run m w)
  run-bind (ret a) f w = refl
  run-bind (throw e) f w = refl
  run-bind (call c k) f w = run-bind (k (handle c w).0) f (handle c w).1

  -- A block that returns has run its first part to a result.
  pub run-bind-returned :
      {A B : Type 0} (m : Prog C R A) (f : A → Prog C R B) (w : W) (b : B)
      → (run (m >>= f) w).0 ≡ returned b
      → (a : A) × ((run m w).0 ≡ returned a)
        × (run (m >>= f) w ≡ run (f a) (run m w).1)
        × ((run (f a) (run m w).1).0 ≡ returned b)
  run-bind-returned (ret a) f w b e = (a, refl, refl, e)
  run-bind-returned (throw x) f w b e = cc
  run-bind-returned (call c k) f w b e = run-bind-returned (k (handle c w).0) f (handle c w).1 b e

  -- A run goes on with the answer of its first call.
  pub run-answered :
      {A : Type 0} (c : C) (k : Answer (R c) → Prog C R A) (w w' : W) (a : Answer (R c))
      → handle c w ≡ (a, w')
      → run (call c k) w ≡ run (k a) w'
  run-answered c k w w' a e = ap (λ (x : Answer (R c) × W). run (k x.0) x.1) e
