-- ===== src/Product/Ledger/Invariant.antt =====
-- The ledger is kept by every step of every schedule.
use mathlib.Core.Path.{subst}
use redis_api.Common.{ℕ, ◌+◌, ◌≤◌, ◌≡◌, refl, List, [], ◌∷◌, ◌++◌, none, Answer, arith}
use redis_api.Effect.{call, ret, throw}
use redis_api.Service.{Call, Reply, Method}
use redis_api.Service.World.{Systems, Fault, act}
use redis_api.Product.{inventory_key, use_item}
use redis_api.Product.Ledger.Owes.{
  Owes, Owes-map, use_item-Owes, get_inventory-Owes, reset_inventory-Owes,
}
use redis_api.Product.Ledger.System.{
  Request, using, reading, resetting, Served, start, System, resumed, Step, arrive, resume, reply,
  fail, elapse, Reach, here, next,
}
use redis_api.Product.Ledger.Holds.{Holds, published, Holds-le, Holds-pass}
use redis_api.Product.Ledger.Calls.{act-Kept}

-- The requests have `t` items in their hands.
abbrev pub OwesAll : ℕ → List (Method Served) → Type 0
OwesAll t [] = t ≡ 0
OwesAll t (p ∷ ps) = (w : ℕ) × (v : ℕ) × Owes w p × OwesAll v ps × (t ≡ w + v)

start-Owes : (q : Request) → Owes 0 (start q)
start-Owes (using correlation) = Owes-map _ (use_item correlation) 0 (use_item-Owes correlation)
start-Owes reading = Owes-map _ _ 0 get_inventory-Owes
start-Owes resetting = Owes-map _ _ 0 reset_inventory-Owes

-- One request among the others.
record Among (t : ℕ) (before : List (Method Served)) (p : Method Served)
    (after : List (Method Served)) : Type 0 where
  own : ℕ
  rest : ℕ
  sum : t ≡ own + rest
  owes : Owes own p
  others : OwesAll rest (before ++ after)
  replaced : (w : ℕ) (q : Method Served) → Owes w q → OwesAll (w + rest) (before ++ (q ∷ after))

among :
    (t : ℕ) (before : List (Method Served)) (p : Method Served) (after : List (Method Served))
    → OwesAll t (before ++ (p ∷ after))
    → Among t before p after
among t [] p after (w, v, o, h, e) = record {
  own = w;
  rest = v;
  sum = e;
  owes = o;
  others = h;
  replaced = λ u q oq. (u, v, oq, h, refl);
}
among t (b ∷ before) p after (w, v, o, h, e) =
    let a = among v before p after h in
    record {
      own = a.own;
      rest = w + a.rest;
      sum = omega (arith, e, a.sum);
      owes = a.owes;
      others = (w, a.rest, o, a.others, refl);
      replaced = λ u q oq. (w, u + a.rest, o, a.replaced u q oq, omega arith);
    }

module _ (y : Systems) where
  -- `total` items: in stock, published, in the hands of requests, and lost by rejected calls to
  -- Redis, one each at most; an event whose sender was told that it failed counts once more. The items
  -- that resets have put into stock count too, and so do those that were in stock at a reset.
  pub record Ledger (total : ℕ) (s : System y) : Type 0 where
    pub stock : ℕ
    pub hands : ℕ
    pub lost : ℕ
    pub owes : OwesAll hands s.requests
    pub holds : Holds y stock hands s.world.redis
    pub untimed : y.server.time_to_live inventory_key s.world.redis ≡ none
    pub few : lost ≤ s.rejections
    pub plain : s.granted ≡ 0 → s.withdrawn ≡ 0
    pub balance :
        stock + published y s.world + hands + lost + s.withdrawn ≡ total + s.duplicated + s.granted

  resume-Ledger :
      (total : ℕ) (s : System y) (before : List (Method Served)) (c : Call)
      (k : Answer (Reply c) → Method Served) (f : Fault) (after : List (Method Served))
      (g : Ledger total s)
      → Among g.hands before (call c k) after
      → Ledger total (resumed y s before c k f after)
  resume-Ledger total s before c k f after g a =
      let kept =
        act-Kept y g.stock a.own a.rest s.world
          (Holds-le y g.stock g.hands _ s.world.redis (omega (arith, a.sum)) g.holds) g.untimed f c
          (λ v r. Owes v (k r)) a.owes in
      record {
        stock = kept.stock;
        hands = kept.hands + a.rest;
        lost = g.lost + kept.lost;
        owes = a.replaced kept.hands (k (act y f c s.world).0) kept.owes;
        holds = kept.holds;
        untimed = kept.untimed;
        few = omega (arith, g.few, kept.few);
        plain = λ none_put. omega (
          arith,
          none_put,
          g.plain (omega (arith, none_put)),
          kept.plain (omega (arith, none_put)),
        );
        balance = omega (arith, g.balance, kept.balance, a.sum);
      }

  -- A request that has ended leaves with nothing in its hands.
  ended :
      (total : ℕ) (s : System y) (before : List (Method Served)) (p : Method Served)
      (after : List (Method Served))
      → Ledger total s
      → s.requests ≡ before ++ (p ∷ after)
      → ((w : ℕ) → Owes w p → w ≡ 0)
      → Ledger total (record s { requests = before ++ after })
  ended total s before p after g e empty =
      let one = among g.hands before p after (subst (OwesAll g.hands) e g.owes) in
      record {
        stock = g.stock;
        hands = g.hands;
        lost = g.lost;
        owes =
            subst (λ t. OwesAll t (before ++ after))
              (omega (arith, one.sum, empty one.own one.owes)) one.others;
        holds = g.holds;
        untimed = g.untimed;
        few = g.few;
        plain = g.plain;
        balance = g.balance;
      }

  Step-Ledger : (total : ℕ) {s t : System y} → Step y s t → Ledger total s → Ledger total t
  Step-Ledger total (arrive q) g = record {
    stock = g.stock;
    hands = g.hands;
    lost = g.lost;
    owes = (0, g.hands, start-Owes q, g.owes, omega arith);
    holds = g.holds;
    untimed = g.untimed;
    few = g.few;
    plain = g.plain;
    balance = g.balance;
  }
  Step-Ledger total {s} (resume before c k f after e) g =
      resume-Ledger total s before c k f after g
        (among g.hands before (call c k) after (subst (OwesAll g.hands) e g.owes))
  Step-Ledger total {s} (reply before a after e) g =
      ended total s before (ret a) after g e (λ w h. h)
  Step-Ledger total {s} (fail before x after e) g =
      ended total s before (throw x) after g e (λ w h. h)
  Step-Ledger total {s} (elapse d) g = record {
    stock = g.stock;
    hands = g.hands;
    lost = g.lost;
    owes = g.owes;
    holds = Holds-pass y g.stock g.hands d s.world.redis g.untimed g.holds;
    untimed = rw (y.server.time-pass d inventory_key s.world.redis, g.untimed) refl;
    few = g.few;
    plain = g.plain;
    balance = g.balance;
  }

  pub Reach-Ledger : (total : ℕ) {s t : System y} → Reach y s t → Ledger total s → Ledger total t
  Reach-Ledger total here g = g
  Reach-Ledger total (next r st) g = Step-Ledger total st (Reach-Ledger total r g)
