-- ===== src/Product/Ledger/Owes.antt =====
-- How many items a suspended method has in its hands: taken from the stock, and neither published
-- nor put back.
use redis_api.Common.{
  ℕ, zero, suc, ◌+◌, ◌≤◌, ◌≡◌, refl, Option, none, some, Answer, answer, error, arith, true, false,
}
use redis_api.Common.Int.{ℤ, pos, negsuc}
use redis_api.Text.{Str}
use redis_api.Text.Decimal.{show}
use redis_api.Effect.{ret, throw, call, ◌>>=◌}
use redis_api.Service.{
  Call, set, set_ex, set_px_nx, get, del, keys, incr, eval_release, eval_decrement, emit, sleep,
  random_uuid, Reply, Method,
}
use redis_api.Product.{
  inventory_key, lock_key, initial_stock, lock_retry_count, lock_loop, with_token, deliver,
  take_item, use_item, get_inventory, reset_inventory,
}

-- What an answer of CHECK_AND_DECREMENT_SCRIPT hands over.
abbrev pub taken : Answer ℤ → ℕ
taken (answer (pos n)) = 1
taken (answer (negsuc n)) = 0
taken error = 0

-- What a method with `w` items in its hands may call, and what it has in its hands afterwards. A
-- method whose release of the lock is rejected drops what it has.
-- `set` is for the reset alone; no method sends `set_ex` or `del`.
abbrev pub Allowed : ℕ → (c : Call) → (ℕ → Answer (Reply c) → Type 0) → Type 0
Allowed w (set k v) next =
    (k ≡ inventory_key) × (v ≡ show initial_stock) × ((r : Answer (Reply (set k v))) → next w r)
Allowed w (set_ex k v d) next = ⊥
Allowed w (del k) next = ⊥
Allowed w (set_px_nx k v d) next =
    (k ≡ lock_key) × ((r : Answer (Reply (set_px_nx k v d))) → next w r)
Allowed w (eval_release k v) next =
    (k ≡ lock_key) × (w ≤ 1) × ((n : ℕ) → next w (answer n)) × next 0 error
Allowed w (get k) next = (r : Answer (Reply (get k))) → next w r
Allowed w (keys p) next = (r : Answer (Reply (keys p))) → next w r
Allowed w (sleep d) next = (r : Answer (Reply (sleep d))) → next w r
Allowed w random_uuid next = (r : Answer (Reply random_uuid)) → next w r
Allowed w (eval_decrement k i) next =
    (w ≡ 0) × (k ≡ inventory_key) × (i ≡ show initial_stock) × ((r : Answer ℤ) → next (taken r) r)
Allowed w (incr k) next = (w ≡ 1) × (k ≡ inventory_key) × ((r : Answer ℤ) → next 0 r)
Allowed w (emit t e) next = (w ≡ 1) × next 0 (answer tt) × next 1 error

-- The method has `w` items in its hands, and none when it ends.
abbrev pub Owes : {A : Type 0} → ℕ → Method A → Type 0
Owes w (ret a) = w ≡ 0
Owes w (throw e) = w ≡ 0
Owes w (call c k) = Allowed w c (λ v r. Owes v (k r))

deliver-Owes : (correlation : Option Str) (n : ℤ) → Owes 1 (deliver correlation n)
unfolding deliver
deliver-Owes (some id) n = (refl, refl, (refl, refl, elim [ answer m ↦ refl | error ↦ refl ]))
deliver-Owes none n = elim [
  | answer id ↦ (refl, refl, (refl, refl, elim [ answer m ↦ refl | error ↦ refl ]))
  | error ↦ (refl, refl, elim [ answer m ↦ refl | error ↦ refl ])
]

take_item-Owes : (correlation : Option Str) (token : Str) → Owes 0 (take_item correlation token)
unfolding take_item
take_item-Owes correlation token = (
  refl,
  refl,
  refl,
  elim [
    | answer (pos n) ↦ (refl, omega arith, λ m. deliver-Owes correlation (pos n), refl)
    | answer (negsuc n) ↦ (refl, omega arith, λ m. refl, refl)
    | error ↦ (refl, omega arith, λ m. refl, refl)
  ],
)

lock_loop-Owes :
    {A : Type 0} (f : Option Str → Method A)
    → ((t : Option Str) → Owes 0 (f t))
    → (left attempt : ℕ) → Owes 0 (lock_loop left attempt >>= f)
unfolding lock_loop
lock_loop-Owes f h zero attempt = h none
lock_loop-Owes f h (suc left) attempt = elim [
  | answer token ↦ (
    refl,
    elim [
      | answer true ↦ h (some token)
      | answer false ↦ elim [ answer d ↦ lock_loop-Owes f h left (attempt + 1) | error ↦ refl ]
      | error ↦ refl
    ],
  )
  | error ↦ refl
]

with_token-Owes : (correlation token : Option Str) → Owes 0 (with_token correlation token)
unfolding with_token
with_token-Owes correlation none = refl
with_token-Owes correlation (some token) = take_item-Owes correlation token

-- A request to take an item begins with none in its hands, whatever its calls are answered.
pub use_item-Owes : (correlation : Option Str) → Owes 0 (use_item correlation)
unfolding use_item
use_item-Owes correlation =
    lock_loop-Owes (with_token correlation) (with_token-Owes correlation) lock_retry_count 1

pub get_inventory-Owes : Owes 0 get_inventory
unfolding get_inventory
get_inventory-Owes = elim [ answer none ↦ refl | answer (some v) ↦ refl | error ↦ refl ]

pub reset_inventory-Owes : Owes 0 reset_inventory
unfolding reset_inventory
reset_inventory-Owes = (refl, refl, elim [ answer u ↦ refl | error ↦ refl ])

Allowed-map :
    (c : Call) (w : ℕ) (P Q : ℕ → Answer (Reply c) → Type 0)
    → ((v : ℕ) (r : Answer (Reply c)) → P v r → Q v r)
    → Allowed w c P
    → Allowed w c Q
Allowed-map (set k v) w P Q f h = (h.0, h.1, λ r. f w r (h.2 r))
Allowed-map (set_ex k v d) w P Q f h = h
Allowed-map (del k) w P Q f h = h
Allowed-map (set_px_nx k v d) w P Q f h = (h.0, λ r. f w r (h.1 r))
Allowed-map (eval_release k v) w P Q f h = (h.0, h.1, λ n. f w (answer n) (h.2 n), f 0 error h.3)
Allowed-map (get k) w P Q f h = λ r. f w r (h r)
Allowed-map (keys p) w P Q f h = λ r. f w r (h r)
Allowed-map (sleep d) w P Q f h = λ r. f w r (h r)
Allowed-map random_uuid w P Q f h = λ r. f w r (h r)
Allowed-map (eval_decrement k i) w P Q f h = (h.0, h.1, h.2, λ r. f (taken r) r (h.3 r))
Allowed-map (incr k) w P Q f h = (h.0, h.1, λ r. f 0 r (h.2 r))
Allowed-map (emit t e) w P Q f h = (h.0, f 0 (answer tt) h.1, f 1 error h.2)

-- What is done with the result does not touch the items.
pub Owes-map :
    {A B : Type 0} (g : A → B) (m : Method A) (w : ℕ) → Owes w m → Owes w (m >>= λ a. ret (g a))
Owes-map g (ret a) w h = h
Owes-map g (throw e) w h = h
Owes-map g (call c k) w h = Allowed-map c w _ _ (λ v r. Owes-map g (k r) v) h
