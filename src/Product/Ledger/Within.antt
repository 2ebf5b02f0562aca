-- ===== src/Product/Ledger/Within.antt =====
-- How many calls the requests to src/product/product.controller.ts make at most, and how long they wait,
-- whatever their calls are answered.
use redis_api.Common.{
  ℕ, zero, suc, ◌+◌, ◌-◌, ◌*◌, ◌^◌, ◌≤◌, Option, none, some, answer, error, arith,
}
use redis_api.Common.Int.{ℤ, pos, negsuc}
use redis_api.Text.{Str}
use redis_api.Text.Decimal.{show}
use redis_api.Effect.{ret, throw, call, request, try_finally, try_catch, Exception, ◌>>=◌, ◌>>◌}
use redis_api.Service.{
  Call, sleep, eval_decrement, random_uuid, Method, acquire_lock, release_lock, check_and_decrement,
}
use redis_api.Product.{
  inventory_key, initial_stock, lock_key, lock_ttl_ms, lock_retry_ms, lock_retry_count, lock_loop,
  or_random, with_token, deliver, take_item, use_item, get_inventory, reset_inventory,
}

-- The milliseconds of a `setTimeout`.
abbrev pub delay : Call → ℕ
delay (sleep ms) = ms
delay _ = 0

-- The method ends after at most `n` calls, and waits for at most `d` milliseconds in all.
abbrev pub Within : {A : Type 0} → ℕ → ℕ → Method A → Type 0
Within n d (ret a) = Unit
Within n d (throw e) = Unit
Within n d (call c k) = (1 ≤ n) × (delay c ≤ d) × ((r : _) → Within (n - 1) (d - delay c) (k r))

pub Within-le :
    {A : Type 0} (m : Method A) (n n' d d' : ℕ) → n ≤ n' → d ≤ d' → Within n d m → Within n' d' m
Within-le (ret a) n n' d d' hn hd h = tt
Within-le (throw e) n n' d d' hn hd h = tt
Within-le (call c k) n n' d d' hn hd (some_left, waits, rest) = (
  omega arith,
  omega arith,
  λ r.
      Within-le (k r) (n - 1) (n' - 1) (d - delay c) (d' - delay c) (omega arith) (omega arith)
        (rest r),
)

pub bind-Within :
    {A B : Type 0} (m : Method A) (f : A → Method B) (n n' d d' : ℕ)
    → Within n d m
    → ((a : A) → Within n' d' (f a))
    → Within (n + n') (d + d') (m >>= f)
bind-Within (ret a) f n n' d d' h g = Within-le (f a) n' _ d' _ (omega arith) (omega arith) (g a)
bind-Within (throw e) f n n' d d' h g = tt
bind-Within (call c k) f n n' d d' (some_left, waits, rest) g = (
  omega arith,
  omega arith,
  λ r.
      Within-le (k r >>= f) (n - 1 + n') _ (d - delay c + d') _ (omega arith) (omega arith)
        (bind-Within (k r) f (n - 1) n' (d - delay c) d' (rest r) g),
)

try_finally-Within :
    {A : Type 0} (m : Method A) (cleanup : Method (Unit {0})) (n n' d d' : ℕ)
    → Within n d m
    → Within n' d' cleanup
    → Within (n + n') (d + d') (try_finally m cleanup)
try_finally-Within (ret a) cleanup n n' d d' h g =
    Within-le (cleanup >> ret a) (n' + 0) _ (d' + 0) _ (omega arith) (omega arith)
      (bind-Within cleanup (λ u. ret a) n' 0 d' 0 g (λ u. tt))
try_finally-Within (throw e) cleanup n n' d d' h g =
    Within-le (cleanup >> throw e) (n' + 0) _ (d' + 0) _ (omega arith) (omega arith)
      (bind-Within cleanup (λ u. throw e) n' 0 d' 0 g (λ u. tt))
try_finally-Within (call c k) cleanup n n' d d' (some_left, waits, rest) g = (
  omega arith,
  omega arith,
  λ r.
      Within-le (try_finally (k r) cleanup) (n - 1 + n') _ (d - delay c + d') _ (omega arith)
        (omega arith) (try_finally-Within (k r) cleanup (n - 1) n' (d - delay c) d' (rest r) g),
)

try_catch-Within :
    {A : Type 0} (m : Method A) (handler : Exception → Method A) (n n' d d' : ℕ)
    → Within n d m
    → ((e : Exception) → Within n' d' (handler e))
    → Within (n + n') (d + d') (try_catch m handler)
try_catch-Within (ret a) handler n n' d d' h g = tt
try_catch-Within (throw e) handler n n' d d' h g =
    Within-le (handler e) n' _ d' _ (omega arith) (omega arith) (g e)
try_catch-Within (call c k) handler n n' d d' (some_left, waits, rest) g = (
  omega arith,
  omega arith,
  λ r.
      Within-le (try_catch (k r) handler) (n - 1 + n') _ (d - delay c + d') _ (omega arith)
        (omega arith) (try_catch-Within (k r) handler (n - 1) n' (d - delay c) d' (rest r) g),
)

-- One call of each method of the services, two to take the lock.
request-Within : (c : Call) → Within 1 (delay c) (request c)
request-Within c = (omega arith, omega arith, elim [ answer a ↦ tt | error ↦ tt ])

acquire_lock-Within : (key : Str) (ttl : ℕ) → Within 2 0 (acquire_lock key ttl)
acquire_lock-Within key ttl = (
  omega arith,
  omega arith,
  elim [
    | answer token ↦ (omega arith, omega arith, elim [ answer a ↦ tt | error ↦ tt ])
    | error ↦ tt
  ],
)

-- The milliseconds of the waits of the loop.
abbrev pub back_offs : ℕ → ℕ → ℕ
back_offs zero attempt = 0
back_offs (suc left) attempt = lock_retry_ms * 2 ^ (attempt - 1) + back_offs left (attempt + 1)

lock_loop-Within :
    (left attempt : ℕ) → Within (3 * left) (back_offs left attempt) (lock_loop left attempt)
unfolding lock_loop
lock_loop-Within zero attempt = tt
lock_loop-Within (suc left) attempt =
    let wait = lock_retry_ms * 2 ^ (attempt - 1) in
    Within-le (lock_loop (suc left) attempt) (2 + (1 + 3 * left)) _
      (0 + (wait + back_offs left (attempt + 1))) _ (omega arith) (omega arith)
      (bind-Within (acquire_lock lock_key lock_ttl_ms) _ 2 (1 + 3 * left) 0
        (wait + back_offs left (attempt + 1)) (acquire_lock-Within lock_key lock_ttl_ms)
        (elim [
          | some t ↦ tt
          | none ↦
              bind-Within (request (sleep wait)) _ 1 (3 * left) wait (back_offs left (attempt + 1))
                (request-Within (sleep wait)) (λ u. lock_loop-Within left (attempt + 1))
        ]))

or_random-Within : (correlation : Option Str) → Within 1 0 (or_random correlation)
unfolding or_random
or_random-Within none = request-Within random_uuid
or_random-Within (some id) = tt

release_lock-Within : (key token : Str) → Within 1 0 (release_lock key token)
release_lock-Within key token = (omega arith, omega arith, elim [ answer a ↦ tt | error ↦ tt ])

check_and_decrement-Within :
    (key : Str) (initial : ℕ) → Within 1 0 (check_and_decrement key initial)
check_and_decrement-Within key initial = request-Within (eval_decrement key (show initial))

deliver-Within : (correlation : Option Str) (n : ℤ) → Within 3 0 (deliver correlation n)
unfolding deliver
deliver-Within correlation n =
    bind-Within _ _ 3 0 0 0
      (try_catch-Within _ _ 2 1 0 0
        (bind-Within (or_random correlation) _ 1 1 0 0 (or_random-Within correlation)
          (λ id. (omega arith, omega arith, elim [ answer a ↦ tt | error ↦ tt ])))
        (λ e. (omega arith, omega arith, elim [ answer a ↦ tt | error ↦ tt ])))
      (λ u. tt)

take_item-Within :
    (correlation : Option Str) (token : Str) → Within 5 0 (take_item correlation token)
unfolding take_item
take_item-Within correlation token =
    bind-Within
      (try_finally (check_and_decrement inventory_key initial_stock) (release_lock lock_key token))
      _ 2 3 0 0
      (try_finally-Within (check_and_decrement inventory_key initial_stock)
        (release_lock lock_key token) 1 1 0 0
        (check_and_decrement-Within inventory_key initial_stock)
        (release_lock-Within lock_key token))
      (elim [ pos n ↦ deliver-Within correlation (pos n) | negsuc n ↦ tt ])

with_token-Within : (correlation token : Option Str) → Within 5 0 (with_token correlation token)
unfolding with_token
with_token-Within correlation none = tt
with_token-Within correlation (some token) = take_item-Within correlation token

-- Five attempts at the lock, with a wait after each, and five calls with it.
pub use_item-Within : (correlation : Option Str) → Within 20 1550 (use_item correlation)
unfolding use_item
use_item-Within correlation =
    bind-Within (lock_loop lock_retry_count 1) (with_token correlation) 15 5 1550 0
      (lock_loop-Within lock_retry_count 1) (with_token-Within correlation)

pub get_inventory-Within : Within 1 0 get_inventory
unfolding get_inventory
get_inventory-Within =
    (omega arith, omega arith, elim [ answer none ↦ tt | answer (some v) ↦ tt | error ↦ tt ])

pub reset_inventory-Within : Within 1 0 reset_inventory
unfolding reset_inventory
reset_inventory-Within = (omega arith, omega arith, elim [ answer u ↦ tt | error ↦ tt ])
