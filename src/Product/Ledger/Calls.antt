-- ===== src/Product/Ledger/Calls.antt =====
-- What one call does to the ledger.
use mathlib.Core.Path.{subst}
use redis_api.Common.{
  ℕ, suc, ◌+◌, ◌≡◌, refl, ◌∙◌, inl, inr, none, Answer, error, arith, true, false, Bool-cases,
}
use redis_api.Redis.Scripts.{decrement_script, release_script}
use redis_api.Redis.Lock.{release_script-SameBut, set_px_nx-SameBut}
use redis_api.Service.{
  Call, set, set_ex, set_px_nx, get, del, keys, incr, eval_release, eval_decrement, emit, sleep,
  random_uuid, Reply,
}
use redis_api.Service.World.{
  Systems, World, Fault, sound, unsent, unanswered, is_local, execute, meet, act,
}
use redis_api.Product.{inventory_key}
use redis_api.Product.Ledger.Owes.{taken, Allowed}
use redis_api.Product.Ledger.System.{duplicated_by, granted_by, withdrawn_by}
use redis_api.Product.Ledger.Holds.{
  Holds, Kept, Holds-le, other_key, unchanged, dropped, unsent-Kept,
}
use redis_api.Product.Ledger.Decrement.{taken-le}
use redis_api.Product.Ledger.Movements.{
  put_back, incr-untimed, released, handed, script-Decremented, reset_to, published-send,
}

duplicated-local : (f : Fault) (c : Call) → is_local c ≡ true → duplicated_by f c ≡ 0
duplicated-local f (sleep d) h = ground arith
duplicated-local f random_uuid h = ground arith
duplicated-local f (emit t e) h = cc
duplicated-local f _ h = ground arith

granted-local : (f : Fault) (c : Call) → is_local c ≡ true → granted_by f c ≡ granted_by sound c
granted-local f (sleep d) h = ground arith
granted-local f random_uuid h = ground arith
granted-local f (set k v) h = cc
granted-local f _ h = ground arith

module _ (y : Systems) where
  withdrawn-local :
      (f : Fault) (c : Call) (w : World y)
      → is_local c ≡ true
      → withdrawn_by y f c w ≡ withdrawn_by y sound c w
  withdrawn-local f (sleep d) w h = ground arith
  withdrawn-local f random_uuid w h = ground arith
  withdrawn-local f (set k v) w h = cc
  withdrawn-local f _ w h = ground arith

  open y.server use {time_to_live}

  module _ (n v rest : ℕ) (w : World y) (holds : Holds y n (v + rest) w.redis)
      (untimed : time_to_live inventory_key w.redis ≡ none) where
    -- The call was carried out and answered.
    sound-Kept :
        (c : Call) (after : ℕ → Answer (Reply c) → Type 0)
        → Allowed v c after
        → Kept y n v rest 0
            (granted_by sound c)
            (withdrawn_by y sound c w)
            w
            c
            after
            (execute y c w).0
            (execute y c w).1
    unfolding execute
    sound-Kept (set_px_nx k t d) after h =
        let same = set_px_nx-SameBut y.server k t d inventory_key w.redis (other_key y k h.0) in
        unchanged y n v rest w holds untimed _ after _ _ (h.1 _) same.0 same.1 refl
    sound-Kept (get k) after h =
        unchanged y n v rest w holds untimed _ after _ w (h _) refl refl refl
    sound-Kept (keys k) after h =
        unchanged y n v rest w holds untimed _ after _ w (h _) refl refl refl
    sound-Kept (eval_decrement k i) after h =
        handed y n v rest w holds untimed k i after (decrement_script y.server k i w.redis) h
          (script-Decremented y n v rest w holds untimed k i after h)
    sound-Kept (eval_release k t) after h =
        let same = release_script-SameBut y.server k t inventory_key w.redis (other_key y k h.0) in
        released y n v rest w holds untimed k t after (release_script y.server k t w.redis) h same.0
          same.1
    sound-Kept (incr k) after h = record {
      stock = suc n;
      hands = 0;
      lost = 0;
      owes = h.2 _;
      holds = inl ((put_back y n v rest w holds untimed k h.1 h.0).1);
      untimed = incr-untimed y n v rest w holds untimed k;
      few = omega arith;
      plain = λ g. refl;
      balance = omega (arith, h.0);
    }
    sound-Kept (emit t e) after h = record {
      stock = n;
      hands = 0;
      lost = 0;
      owes = h.1;
      holds = Holds-le y n (v + rest) (0 + rest) w.redis (omega arith) holds;
      untimed = untimed;
      few = omega arith;
      plain = λ g. refl;
      balance = omega (arith, h.0, published-send y t e w);
    }
    sound-Kept (sleep d) after h =
        unchanged y n v rest w holds untimed _ after _ _ (h _)
          (y.server.value-pass d inventory_key w.redis ∙ rw untimed refl)
          (y.server.time-pass d inventory_key w.redis ∙ rw untimed refl) refl
    sound-Kept random_uuid after h =
        unchanged y n v rest w holds untimed _ after _ _ (h _) refl refl refl
    sound-Kept (set k t) after h = reset_to y n v rest w holds untimed k t after _ h.0 h.1 (h.2 _)
    sound-Kept (set_ex k t d) after h = absurd h
    sound-Kept (del k) after h = absurd h

    -- The call was carried out, and its answer was lost.
    unanswered-Kept :
        (c : Call) (after : ℕ → Answer (Reply c) → Type 0)
        → Allowed v c after
        → is_local c ≡ false
        → Kept y n v rest
            (duplicated_by unanswered c)
            (granted_by unanswered c)
            (withdrawn_by y unanswered c w)
            w
            c
            after
            error
            (execute y c w).1
    unfolding execute
    unanswered-Kept (set_px_nx k t d) after h _ =
        let same = set_px_nx-SameBut y.server k t d inventory_key w.redis (other_key y k h.0) in
        unchanged y n v rest w holds untimed _ after error _ (h.1 error) same.0 same.1 refl
    unanswered-Kept (get k) after h _ =
        unchanged y n v rest w holds untimed _ after error w (h error) refl refl refl
    unanswered-Kept (keys k) after h _ =
        unchanged y n v rest w holds untimed _ after error w (h error) refl refl refl
    unanswered-Kept (eval_decrement k i) after h _ =
        let d = script-Decremented y n v rest w holds untimed k i after h in
        record {
          stock = d.stock;
          hands = 0;
          lost = taken (decrement_script y.server k i w.redis).0;
          owes = h.3 error;
          holds = Holds-le y d.stock _ (0 + rest) _ (omega arith) d.holds;
          untimed = d.untimed;
          few = taken-le (decrement_script y.server k i w.redis).0;
          plain = λ g. refl;
          balance = omega (arith, d.sum, h.0);
        }
    unanswered-Kept (eval_release k t) after h _ =
        let same = release_script-SameBut y.server k t inventory_key w.redis (other_key y k h.0) in
        dropped y n v rest w holds untimed _ after error _ h.3 h.1 same.0 same.1 refl
    unanswered-Kept (incr k) after h _ = record {
      stock = suc n;
      hands = 0;
      lost = 0;
      owes = h.2 error;
      holds = inl ((put_back y n v rest w holds untimed k h.1 h.0).1);
      untimed = incr-untimed y n v rest w holds untimed k;
      few = omega arith;
      plain = λ g. refl;
      balance = omega (arith, h.0);
    }
    unanswered-Kept (emit t e) after h _ = record {
      stock = n;
      hands = 1;
      lost = 0;
      owes = h.2;
      holds = subst (λ m. Holds y n (m + rest) w.redis) h.0 holds;
      untimed = untimed;
      few = omega arith;
      plain = λ g. refl;
      balance = omega (arith, h.0, published-send y t e w);
    }
    unanswered-Kept (sleep d) after h remote = cc
    unanswered-Kept random_uuid after h remote = cc
    unanswered-Kept (set k t) after h _ =
        reset_to y n v rest w holds untimed k t after error h.0 h.1 (h.2 error)
    unanswered-Kept (set_ex k t d) after h _ = absurd h
    unanswered-Kept (del k) after h _ = absurd h

    meet-Kept :
        (f : Fault) (c : Call) (after : ℕ → Answer (Reply c) → Type 0)
        → Allowed v c after
        → is_local c ≡ false
        → Kept y n v rest
            (duplicated_by f c)
            (granted_by f c)
            (withdrawn_by y f c w)
            w
            c
            after
            (meet y f c w).0
            (meet y f c w).1
    meet-Kept sound c after h remote = sound-Kept c after h
    meet-Kept unsent c after h remote = unsent-Kept y n v rest w holds untimed c after h remote
    meet-Kept unanswered c after h remote = unanswered-Kept c after h remote

    -- Whatever becomes of a call, it keeps the ledger.
    pub act-Kept :
        (f : Fault) (c : Call) (after : ℕ → Answer (Reply c) → Type 0)
        → Allowed v c after
        → Kept y n v rest
            (duplicated_by f c)
            (granted_by f c)
            (withdrawn_by y f c w)
            w
            c
            after
            (act y f c w).0
            (act y f c w).1
    unfolding act
    act-Kept f c after h = elim (Bool-cases (is_local c)) [
      | inl here ↦
          rw (here, duplicated-local f c here, granted-local f c here, withdrawn-local f c w here)
            (sound-Kept c after h)
      | inr remote ↦ rw remote (meet-Kept f c after h remote)
    ]
