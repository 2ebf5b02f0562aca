-- ===== src/Product/Ledger/Holds.antt =====
-- What the ledger knows of the stock, and calls that leave the stock as it is.
use mathlib.Core.Path.{subst}
use redis_api.Common.{
  ℕ, ◌+◌, ◌≤◌, ◌≡◌, ◌≢◌, refl, sym, ◌∙◌, ◌⊎◌, inl, inr, none, Answer, error, arith, length, false,
}
use redis_api.Text.{Str, ===_iff, ◌===◌}
use redis_api.Text.Decimal.{show, read_ℤ-show}
use redis_api.Redis.Server.{missing, text}
use redis_api.Service.{
  Call, set, set_ex, set_px_nx, get, del, keys, incr, eval_release, eval_decrement, emit, sleep,
  random_uuid, Reply,
}
use redis_api.Service.World.{Systems, World, is_local}
use redis_api.Product.{inventory_key, lock_key, initial_stock}
use redis_api.Product.Ledger.Owes.{Allowed}
use redis_api.Product.Ledger.System.{items_at, rejected_by}

module _ (y : Systems) where
  open y.server use {State as Redis, value, time_to_live}

  -- The server holds `n` items, where requests have `o` items in their hands. The key may be missing
  -- as long as no item was taken.
  abbrev pub Holds : ℕ → ℕ → Redis → Type 0
  Holds n o s =
      (value inventory_key s ≡ text (show n))
      ⊎ ((value inventory_key s ≡ missing) × (initial_stock ≡ n) × (o ≡ 0))

  abbrev pub published : World y → ℕ
  published w = length (y.broker.delivered w.kafka)

  -- A call of a request with `v` items in its hands, where the others have `rest`, led from `w` and a
  -- stock of `n` to `w'`, and was answered `a`. A reset takes `off` items off it, and puts
  -- `grant` items there.
  pub record Kept (n v rest dup grant off : ℕ) (w : World y) (c : Call)
      (after : ℕ → Answer (Reply c) → Type 0) (a : Answer (Reply c)) (w' : World y) : Type 0 where
    pub stock : ℕ
    pub hands : ℕ
    pub lost : ℕ
    pub owes : after hands a
    pub holds : Holds stock (hands + rest) w'.redis
    pub untimed : time_to_live inventory_key w'.redis ≡ none
    pub few : lost ≤ rejected_by c a
    pub plain : grant ≡ 0 → off ≡ 0
    pub balance : stock + published w' + hands + lost + off ≡ n + published w + v + dup + grant

  Holds-same :
      (n o : ℕ) (s s' : Redis)
      → value inventory_key s' ≡ value inventory_key s
      → Holds n o s
      → Holds n o s'
  Holds-same n o s s' e (inl h) = inl (e ∙ h)
  Holds-same n o s s' e (inr (gone, first, free)) = inr (e ∙ gone, first, free)

  pub Holds-le : (n o o' : ℕ) (s : Redis) → o' ≤ o → Holds n o s → Holds n o' s
  Holds-le n o o' s le (inl h) = inl h
  Holds-le n o o' s le (inr (gone, first, free)) = inr (gone, first, omega arith)

  -- Where the server holds `n` items, those are the items that stand in the key.
  pub Holds-items : (n o : ℕ) (s : Redis) → Holds n o s → items_at (value inventory_key s) ≡ n
  Holds-items n o s (inl h) = rw (h, read_ℤ-show n) refl
  Holds-items n o s (inr (gone, first, free)) = rw gone first

  pub other_key : (k : Str) → k ≡ lock_key → k ≢ inventory_key
  unfolding ◌===◌
  other_key k e h = cc ((===_iff lock_key inventory_key).1 (sym e ∙ h))

  module _ (n v rest : ℕ) (w : World y) (holds : Holds n (v + rest) w.redis)
      (untimed : time_to_live inventory_key w.redis ≡ none) where
    -- The call changed nothing that the ledger reads.
    pub unchanged :
        (c : Call) (after : ℕ → Answer (Reply c) → Type 0) (a : Answer (Reply c)) (w' : World y)
        → after v a
        → value inventory_key w'.redis ≡ value inventory_key w.redis
        → time_to_live inventory_key w'.redis ≡ time_to_live inventory_key w.redis
        → published w' ≡ published w
        → Kept n v rest 0 0 0 w c after a w'
    unchanged c after a w' owes e t p = record {
      stock = n;
      hands = v;
      lost = 0;
      owes = owes;
      holds = Holds-same n (v + rest) w.redis w'.redis e holds;
      untimed = t ∙ untimed;
      few = omega arith;
      plain = λ g. refl;
      balance = omega (arith, p);
    }

    -- The call changed nothing that the ledger reads, and the request gives up what it has.
    pub dropped :
        (c : Call) (after : ℕ → Answer (Reply c) → Type 0) (a : Answer (Reply c)) (w' : World y)
        → after 0 a
        → v ≤ rejected_by c a
        → value inventory_key w'.redis ≡ value inventory_key w.redis
        → time_to_live inventory_key w'.redis ≡ time_to_live inventory_key w.redis
        → published w' ≡ published w
        → Kept n v rest 0 0 0 w c after a w'
    dropped c after a w' owes le e t p = record {
      stock = n;
      hands = 0;
      lost = v;
      owes = owes;
      holds =
          Holds-le n (v + rest) (0 + rest) w'.redis (omega arith)
            (Holds-same n (v + rest) w.redis w'.redis e holds);
      untimed = t ∙ untimed;
      few = le;
      plain = λ g. refl;
      balance = omega (arith, p);
    }

    -- The call was not carried out; a release of the lock that is rejected drops what is in hand.
    pub unsent-Kept :
        (c : Call) (after : ℕ → Answer (Reply c) → Type 0)
        → Allowed v c after
        → is_local c ≡ false
        → Kept n v rest 0 0 0 w c after error w
    unsent-Kept (set_px_nx k t d) after h _ = unchanged _ after error w (h.1 error) refl refl refl
    unsent-Kept (get k) after h _ = unchanged _ after error w (h error) refl refl refl
    unsent-Kept (keys k) after h _ = unchanged _ after error w (h error) refl refl refl
    unsent-Kept (eval_decrement k i) after h _ =
        unchanged _ after error w (subst (λ m. after m error) (sym h.0) (h.3 error)) refl refl refl
    unsent-Kept (eval_release k t) after h _ = dropped _ after error w h.3 h.1 refl refl refl
    unsent-Kept (incr k) after h _ =
        dropped _ after error w (h.2 error) (omega (arith, h.0)) refl refl refl
    unsent-Kept (emit t e) after h _ =
        unchanged _ after error w (subst (λ m. after m error) (sym h.0) h.2) refl refl refl
    unsent-Kept (sleep d) after h remote = cc
    unsent-Kept random_uuid after h remote = cc
    unsent-Kept (set k t) after h _ = unchanged _ after error w (h.2 error) refl refl refl
    unsent-Kept (set_ex k t d) after h _ = absurd h
    unsent-Kept (del k) after h _ = absurd h

  -- Time does not touch a stock that has none to live.
  pub Holds-pass :
      (n o d : ℕ) (s : Redis)
      → time_to_live inventory_key s ≡ none
      → Holds n o s
      → Holds n o (y.server.pass d s)
  Holds-pass n o d s u h =
      Holds-same n o s (y.server.pass d s) (y.server.value-pass d inventory_key s ∙ rw u refl) h
