-- ===== src/Product.antt =====
-- ProductController of src/product/product.controller.ts.
pub mod Ledger
pub mod Sale
pub mod SoldOut
pub mod Stock
pub mod Counter
pub mod Contention
use redis_api.Common.{
  ℕ, zero, suc, ◌+◌, ◌-◌, ◌*◌, ◌^◌, Bool, true, false, Option, none, some, ◌++◌, if◌then◌else◌,
}
use redis_api.Common.Int.{ℤ, pos, negative_ℤ}
use redis_api.Text.{Str, codes}
use redis_api.Text.Decimal.{show, show_ℤ, parse_int}
use redis_api.Effect.{ret, throw, http, request, try_finally, try_catch, ◌>>=◌, ◌>>◌}
use redis_api.Service.{
  Method, random_uuid, sleep, acquire_lock, release_lock, increment, check_and_decrement,
  emit_event, get_value, set_value,
}

abbrev pub inventory_key : Str
inventory_key = codes "inventory"

abbrev pub lock_key : Str
lock_key = codes "lock:inventory"

abbrev pub item_used : Str
item_used = codes "inventory.item-used"

abbrev pub initial_stock : ℕ
initial_stock = 1000

abbrev pub lock_ttl_ms : ℕ
lock_ttl_ms = 300

abbrev pub lock_retry_count : ℕ
lock_retry_count = 5

abbrev pub lock_retry_ms : ℕ
lock_retry_ms = 50

-- The JSON body of a reply.
pub record UseItemReply : Type 0 where
  pub success : Bool
  pub remaining : ℤ
  pub message : Str

-- `const message = …`
abbrev pub item_message : ℤ → Str
item_message (pos zero) = codes "Last item used!"
item_message remaining = codes "Item used. " ++ show_ℤ remaining ++ codes " left."

-- HttpStatus.SERVICE_UNAVAILABLE
abbrev pub service_unavailable : ℕ
service_unavailable = 503

-- The `for` loop of `useItem` at attempt number `attempt`, with `left` attempts left. A random UUID
-- is not the empty text, so a token is truthy.
unfoldable pub lock_loop : ℕ → ℕ → Method (Option Str)
lock_loop zero attempt = ret none
lock_loop (suc left) attempt = do
  token ← acquire_lock lock_key lock_ttl_ms
  elim token [
    | some t ↦ ret (some t)
    | none ↦ do request (sleep (lock_retry_ms * 2 ^ (attempt - 1))); lock_loop left (attempt + 1)
  ]

-- `getCorrelationId() ?? randomUUID()`
unfoldable pub or_random : Option Str → Method Str
or_random (some id) = ret id
or_random none = request random_uuid

-- The `try` around the emit, and the reply of success.
unfoldable pub deliver : Option Str → ℤ → Method UseItemReply
unfolding or_random
deliver correlation remaining = do
  try_catch
      (do
        id ← or_random correlation
        emit_event item_used (record {
          remaining = remaining;
          success = true;
          message = item_message remaining;
          correlation_id = id;
        }))
      (λ err. do
        increment inventory_key
        throw (http service_unavailable (codes "Event delivery failed. Please retry.")))
  ret (record { success = true; remaining = remaining; message = item_message remaining })

abbrev pub sold_out : UseItemReply
sold_out = record { success = false; remaining = pos 0; message = codes "no inventory available" }

-- From `let remaining` on, with the lock's token.
unfoldable pub take_item : Option Str → Str → Method UseItemReply
unfolding deliver
take_item correlation token = do
  remaining ←
      try_finally (check_and_decrement inventory_key initial_stock) (release_lock lock_key token)
  if negative_ℤ remaining then ret sold_out else deliver correlation remaining

-- `useItem` once the loop is left.
unfoldable pub with_token : Option Str → Option Str → Method UseItemReply
unfolding take_item
with_token correlation none =
    throw
      (http service_unavailable (codes "Another transaction is in progress. Please retry shortly."))
with_token correlation (some token) = take_item correlation token

-- `useItem`; `correlation` is what the request's AsyncLocalStorage holds.
unfoldable pub use_item : Option Str → Method UseItemReply
unfolding lock_loop with_token
use_item correlation = do token ← lock_loop lock_retry_count 1; with_token correlation token

-- `getInventory`; `none` is NaN, the value of `parseInt` on a text that does not begin with a number.
unfoldable pub get_inventory : Method (Option ℤ)
get_inventory = do
  value ← get_value inventory_key
  elim value [ none ↦ ret (some (pos initial_stock)) | some v ↦ ret (parse_int v) ]

pub record ResetReply : Type 0 where
  pub remaining : ℕ
  pub message : Str

unfoldable pub reset_inventory : Method ResetReply
reset_inventory = do
  set_value inventory_key (show initial_stock) none
  ret (record { remaining = initial_stock; message = codes "Inventory reset." })
