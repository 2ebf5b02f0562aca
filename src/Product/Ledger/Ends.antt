-- ===== src/Product/Ledger/Ends.antt =====
-- No schedule of the requests to src/product/product.controller.ts goes on for ever: what they call and
-- how long they wait is bounded by how many have come in.
use mathlib.Core.Path.{subst}
use redis_api.Common.{ℕ, ◌+◌, ◌-◌, ◌*◌, ◌≤◌, ◌≡◌, List, [], ◌∷◌, ◌++◌, Answer, arith}
use redis_api.Effect.{call, ret, throw}
use redis_api.Service.{Call, Reply, Method}
use redis_api.Service.World.{Systems, Fault, act}
use redis_api.Product.{use_item, get_inventory, reset_inventory}
use redis_api.Product.Ledger.System.{
  Request, using, reading, resetting, Served, start, System, resumed, arrive, resume, reply, fail,
  elapse, Reach, here, next,
}
use redis_api.Product.Ledger.Within.{
  delay, Within, Within-le, bind-Within, use_item-Within, get_inventory-Within,
  reset_inventory-Within,
}

start-Within : (q : Request) → Within 20 1550 (start q)
start-Within (using correlation) =
    bind-Within (use_item correlation) _ 20 0 1550 0 (use_item-Within correlation) (λ r. tt)
start-Within reading =
    Within-le (start reading) 1 20 0 1550 (omega arith) (omega arith)
      (bind-Within get_inventory _ 1 0 0 0 get_inventory-Within (λ r. tt))
start-Within resetting =
    Within-le (start resetting) 1 20 0 1550 (omega arith) (omega arith)
      (bind-Within reset_inventory _ 1 0 0 0 reset_inventory-Within (λ r. tt))

-- The requests make `n` calls at most, and wait `d` milliseconds, all of them together.
abbrev AllWithin : ℕ → ℕ → List (Method Served) → Type 0
AllWithin n d [] = Unit
AllWithin n d (p ∷ ps) =
    (own : ℕ) × (wait : ℕ) × (own ≤ n)
    × (wait ≤ d)
    × Within own wait p
    × AllWithin (n - own) (d - wait) ps

-- One request among the others.
record Among (n d : ℕ) (before : List (Method Served)) (p : Method Served)
    (after : List (Method Served)) : Type 0 where
  own : ℕ
  wait : ℕ
  fits : own ≤ n
  fits_wait : wait ≤ d
  within : Within own wait p
  others : AllWithin (n - own) (d - wait) (before ++ after)
  replaced :
      (m e : ℕ) (q : Method Served)
      → m ≤ own
      → e ≤ wait
      → Within m e q
      → AllWithin (n - own + m) (d - wait + e) (before ++ (q ∷ after))

AllWithin-le :
    (n n' d d' : ℕ) (ps : List (Method Served))
    → n ≤ n'
    → d ≤ d'
    → AllWithin n d ps
    → AllWithin n' d' ps
AllWithin-le n n' d d' [] hn hd h = tt
AllWithin-le n n' d d' (p ∷ ps) hn hd (own, wait, fits, fits_wait, within, h) = (
  own,
  wait,
  omega arith,
  omega arith,
  within,
  AllWithin-le (n - own) (n' - own) (d - wait) (d' - wait) ps (omega arith) (omega arith) h,
)

among :
    (n d : ℕ) (before : List (Method Served)) (p : Method Served) (after : List (Method Served))
    → AllWithin n d (before ++ (p ∷ after))
    → Among n d before p after
among n d [] p after (own, wait, fits, fits_wait, within, h) = record {
  own = own;
  wait = wait;
  fits = fits;
  fits_wait = fits_wait;
  within = within;
  others = h;
  replaced = λ m e q lm le w.
      (m, e, omega arith, omega arith, w, AllWithin-le _ _ _ _ after (omega arith) (omega arith) h);
}
among n d (b ∷ before) p after (own, wait, fits, fits_wait, within, h) =
    let a = among (n - own) (d - wait) before p after h in
    record {
      own = a.own;
      wait = a.wait;
      fits = omega (arith, a.fits);
      fits_wait = omega (arith, a.fits_wait);
      within = a.within;
      others = (
        own,
        wait,
        omega (arith, a.fits),
        omega (arith, a.fits_wait),
        within,
        AllWithin-le _ _ _ _ (before ++ after) (omega arith) (omega arith) a.others,
      );
      replaced = λ m e q lm le w. (
        own,
        wait,
        omega (arith, a.fits),
        omega (arith, a.fits_wait),
        within,
        AllWithin-le _ _ _ _ (before ++ (q ∷ after)) (omega (arith, a.fits))
            (omega (arith, a.fits_wait)) (a.replaced m e q lm le w),
      );
    }

module _ (y : Systems) where
  -- The requests that came in, the calls that they made, and the milliseconds that they waited.
  pub arrivals : {s t : System y} → Reach y s t → ℕ
  arrivals here = 0
  arrivals (next r (arrive q)) = arrivals r + 1
  arrivals (next r _) = arrivals r

  pub calls : {s t : System y} → Reach y s t → ℕ
  calls here = 0
  calls (next r (resume before c k f after e)) = calls r + 1
  calls (next r _) = calls r

  pub waited : {s t : System y} → Reach y s t → ℕ
  waited here = 0
  waited (next r (resume before c k f after e)) = waited r + delay c
  waited (next r _) = waited r

  -- What the requests may still do, on top of what they did.
  record Budget (a n d : ℕ) (s : System y) : Type 0 where
    left : ℕ
    left_wait : ℕ
    within : AllWithin left left_wait s.requests
    spent : n + left ≤ 20 * a
    spent_wait : d + left_wait ≤ 1550 * a

  arrive-Budget :
      (a n d : ℕ) (s : System y) (q : Request)
      → Budget a n d s
      → Budget (a + 1) n d (record s { requests = start q ∷ s.requests })
  arrive-Budget a n d s q b = record {
    left = b.left + 20;
    left_wait = b.left_wait + 1550;
    within = (
      20,
      1550,
      omega arith,
      omega arith,
      start-Within q,
      AllWithin-le b.left _ b.left_wait _ s.requests (omega arith) (omega arith) b.within,
    );
    spent = omega (arith, b.spent);
    spent_wait = omega (arith, b.spent_wait);
  }

  resume-Budget :
      (a n d : ℕ) (s : System y) (before : List (Method Served)) (c : Call)
      (k : Answer (Reply c) → Method Served) (f : Fault) (after : List (Method Served))
      → s.requests ≡ before ++ (call c k ∷ after)
      → Budget a n d s
      → Budget a (n + 1) (d + delay c) (resumed y s before c k f after)
  resume-Budget a n d s before c k f after e b =
      let x =
        among b.left b.left_wait before (call c k) after
          (subst (AllWithin b.left b.left_wait) e b.within) in
      let (some_left, waits, rest) = x.within in
      record {
        left = b.left - x.own + (x.own - 1);
        left_wait = b.left_wait - x.wait + (x.wait - delay c);
        within =
            x.replaced (x.own - 1) (x.wait - delay c) (k (act y f c s.world).0) (omega arith)
              (omega arith) (rest (act y f c s.world).0);
        spent = omega (arith, b.spent, x.fits, some_left);
        spent_wait = omega (arith, b.spent_wait, x.fits_wait, waits);
      }

  end-Budget :
      (a n d : ℕ) (s : System y) (before : List (Method Served)) (p : Method Served)
      (after : List (Method Served))
      → s.requests ≡ before ++ (p ∷ after)
      → Budget a n d s
      → Budget a n d (record s { requests = before ++ after })
  end-Budget a n d s before p after e b =
      let x =
        among b.left b.left_wait before p after (subst (AllWithin b.left b.left_wait) e b.within) in
      record {
        left = b.left - x.own;
        left_wait = b.left_wait - x.wait;
        within = x.others;
        spent = omega (arith, b.spent);
        spent_wait = omega (arith, b.spent_wait);
      }

  Reach-Budget :
      {s t : System y} (r : Reach y s t)
      → s.requests ≡ []
      → Budget (arrivals r) (calls r) (waited r) t
  unfolding arrivals calls waited
  Reach-Budget here idle = record {
    left = 0;
    left_wait = 0;
    within = rw idle tt;
    spent = omega arith;
    spent_wait = omega arith;
  }
  Reach-Budget (next r (arrive q)) idle = arrive-Budget _ _ _ _ q (Reach-Budget r idle)
  Reach-Budget (next r (resume before c k f after e)) idle =
      resume-Budget _ _ _ _ before c k f after e (Reach-Budget r idle)
  Reach-Budget (next r (reply before a after e)) idle =
      end-Budget _ _ _ _ before (ret a) after e (Reach-Budget r idle)
  Reach-Budget (next r (fail before x after e)) idle =
      end-Budget _ _ _ _ before (throw x) after e (Reach-Budget r idle)
  Reach-Budget (next r (elapse d)) idle =
      let b = Reach-Budget r idle in
      record {
        left = b.left;
        left_wait = b.left_wait;
        within = b.within;
        spent = b.spent;
        spent_wait = b.spent_wait;
      }

  -- In every schedule of requests to take an item, to read the stock or to reset it, interleaved at
  -- every call, whatever their calls are answered and whatever fails: the requests have made no more than
  -- 20 calls for each that came in, and waited no more than 1550 milliseconds for each.
  pub schedules_end :
      {s t : System y} (r : Reach y s t)
      → s.requests ≡ []
      → (calls r ≤ 20 * arrivals r) × (waited r ≤ 1550 * arrivals r)
  schedules_end r idle =
      let b = Reach-Budget r idle in (omega (arith, b.spent), omega (arith, b.spent_wait))
