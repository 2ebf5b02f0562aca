-- ===== src/Product/Ledger/Conservation.antt =====
-- What becomes of the items, over every schedule of the requests and every failure of their calls.
use mathlib.Core.Path.{subst}
use redis_api.Common.{ℕ, ◌+◌, ◌≤◌, ◌≡◌, refl, none, [], arith}
use redis_api.Service.World.{Systems, World}
use redis_api.Product.{inventory_key}
use redis_api.Product.Ledger.System.{System, Reach}
use redis_api.Product.Ledger.Holds.{Holds, published, Holds-le}
use redis_api.Product.Ledger.Invariant.{OwesAll, Ledger, Reach-Ledger}

-- No request has come in yet.
abbrev pub opening : (y : Systems) → World y → System y
opening y w = record {
  world = w;
  requests = [];
  rejections = 0;
  duplicated = 0;
  granted = 0;
  withdrawn = 0;
}

module _ (y : Systems) (n : ℕ) (w : World y) (holds : Holds y n 0 w.redis)
    (untimed : y.server.time_to_live inventory_key w.redis ≡ none) where
  opened : Ledger y (n + published y w) (opening y w)
  opened = record {
    stock = n;
    hands = 0;
    lost = 0;
    owes = refl;
    holds = holds;
    untimed = untimed;
    few = omega arith;
    plain = λ g. refl;
    balance = omega arith;
  }

  -- From a stock of n that never expires, in every state that requests to take an item, to read the
  -- stock or to reset it reach, interleaved at every call and with any of their calls failing: the
  -- stock, the published events, the items in the hands of unfinished requests, the lost items and
  -- the items that resets took off the stock, which are at each reset all that stood in the key, add up to
  -- the first stock, the events published before, one more for each event whose sender was told that it
  -- failed, and 1000 for each reset that was carried out; and no more items are lost than calls to Redis
  -- were rejected.
  pub items_conserved : {s : System y} → Reach y (opening y w) s → Ledger y (n + published y w) s
  items_conserved r = Reach-Ledger y (n + published y w) r opened

  -- From a stock of n that never expires, in every state that requests to take an item, to read the
  -- stock or to reset it reach, interleaved at every call and with any of their calls failing: no more
  -- events were published than there were items and events at first, items that resets put into stock,
  -- and events whose sender was told that they failed.
  never_oversold :
      {s : System y}
      → Reach y (opening y w) s
      → published y s.world ≤ n + published y w + s.granted + s.duplicated
  never_oversold r = let g = items_conserved r in omega (arith, g.balance)

  -- From a stock of n that never expires, in every state that requests to take an item, to read the
  -- stock or to reset it reach, interleaved at every call: once no request is left, if no reset was
  -- carried out, no call to Redis was rejected and no sender was told wrongly that its event failed, the
  -- stock that is left is the first stock less one item for each event published since.
  pub stock-eq-unpublished :
      {s : System y}
      → Reach y (opening y w) s
      → s.requests ≡ []
      → s.rejections ≡ 0
      → s.duplicated ≡ 0
      → s.granted ≡ 0
      → (m : ℕ) × (m + published y s.world ≡ n + published y w) × Holds y m 0 s.world.redis
  stock-eq-unpublished {s} r idle calm exact plain =
      let g = items_conserved r in
      let free : g.hands ≡ 0 = subst (OwesAll g.hands) idle g.owes in
      (
        g.stock,
        omega (arith, g.balance, g.few, free, g.plain plain),
        Holds-le y g.stock g.hands 0 s.world.redis (omega arith) g.holds,
      )
