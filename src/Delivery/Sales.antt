-- ===== src/Delivery/Sales.antt =====
-- A sequence of requests to take an item, from any stock, and what they publish.
use redis_api.Common.{
  ℕ, zero, suc, ◌≡◌, ◌∙◌, sym, ap, Option, some, none, List, [], ◌∷◌, ◌++◌, append_assoc,
  append-nil, inl,
}
use redis_api.Text.{Str}
use redis_api.Text.Decimal.{show}
use redis_api.Effect.{Outcome, returned, thrown, http}
use redis_api.Redis.Server.{missing, text}
use redis_api.Service.{InventoryEvent}
use redis_api.Service.World.{Systems, World, Fault, sound, unsent, unanswered, alone}
use redis_api.Product.{
  UseItemReply, inventory_key, lock_key, service_unavailable, sold_out, use_item,
}
use redis_api.Product.Sale.{emit_meets, use_item-Ended}
use redis_api.Product.SoldOut.{use_item-SoldOut}
use redis_api.Delivery.{Sale, run_sales, event_of, reply_of, Books, books}

-- A request was answered so, `none` for 503.
abbrev pub Answered : Option UseItemReply → Outcome UseItemReply → Type 0
Answered (some r) o = o ≡ returned r
Answered none o = (m : Str) × (o ≡ thrown (http service_unavailable m))

abbrev pub AllAnswered : List (Option UseItemReply) → List (Outcome UseItemReply) → Type 0
AllAnswered [] [] = Unit
AllAnswered (r ∷ rs) (o ∷ os) = Answered r o × AllAnswered rs os
AllAnswered [] (o ∷ os) = ⊥
AllAnswered (r ∷ rs) [] = ⊥

module _ (y : Systems) where
  -- The stock, with the lock free.
  abbrev pub HasStock : ℕ → World y → Type 0
  HasStock n w =
      (y.server.value inventory_key w.redis ≡ text (show n))
      × (y.server.value lock_key w.redis ≡ missing)

  -- What the books say of the requests is what became of them.
  abbrev pub Booked : Books → World y → List (Outcome UseItemReply) × World y → Type 0
  Booked b w (os, w') =
      AllAnswered b.replies os
      × (y.broker.delivered w'.kafka ≡ y.broker.delivered w.kafka ++ b.events)
      × HasStock b.left w'

  -- One request: its answer, what it publishes, and the stock that it leaves.
  abbrev Entered :
      Option UseItemReply
      → List InventoryEvent
      → ℕ
      → World y
      → Outcome UseItemReply × World y
      → Type 0
  Entered r es n w (o, w') =
      Answered r o
      × (y.broker.delivered w'.kafka ≡ y.broker.delivered w.kafka ++ es)
      × HasStock n w'

  entry-Booked :
      (s : Sale) (sales : List Sale) (r : Option UseItemReply) (es : List InventoryEvent) (n : ℕ)
      (b : Books) (w : World y)
      → Entered r es n w (alone y (use_item (some s.0)) (emit_meets s.1) w)
      → ((w' : World y) → HasStock n w' → Booked b w' (run_sales y sales w'))
      → AllAnswered (r ∷ b.replies) (run_sales y (s ∷ sales) w).0
        × (y.broker.delivered (run_sales y (s ∷ sales) w).1.kafka
            ≡ y.broker.delivered w.kafka ++ (es ++ b.events))
        × HasStock b.left (run_sales y (s ∷ sales) w).1
  unfolding run_sales
  entry-Booked (id, f) sales r es n b w (answered, published, stock) later =
      let w' = (alone y (use_item (some id)) (emit_meets f) w).1 in
      let (rest, more, left) = later w' stock in
      (
        (answered, rest),
        more
            ∙ ap (λ l. l ++ b.events) published
            ∙ append_assoc (y.broker.delivered w.kafka) es b.events,
        left,
      )

  sold_out-Entered :
      (id : Str) (f : Fault) (w : World y)
      → HasStock 0 w
      → Entered (some sold_out) [] 0 w (alone y (use_item (some id)) (emit_meets f) w)
  sold_out-Entered id f w (stock, free) =
      let (answered, left, gone, same) = use_item-SoldOut y id w free stock f in
      (
        answered,
        ap (y.broker.delivered) same ∙ sym (append-nil (y.broker.delivered w.kafka)),
        (left, gone),
      )

  -- From a stock of n with the lock free, requests to take an item that run one after the other, and of
  -- whose calls at most the emits fail, are answered, publish and leave what the books say: as long as
  -- there is stock, each takes one item, and publishes it with the number that is left, unless its emit
  -- fails; then it is answered 503 and the item is put back, published or not; without stock each is
  -- answered that nothing is left.
  pub run_sales-Booked :
      (sales : List Sale) (n : ℕ) (w : World y)
      → HasStock n w
      → Booked (books sales n) w (run_sales y sales w)
  unfolding run_sales books
  run_sales-Booked [] n w h = (tt, sym (append-nil (y.broker.delivered w.kafka)), h)
  run_sales-Booked ((id, f) ∷ sales) zero w h =
      entry-Booked (id, f) sales (some sold_out) [] 0 (books sales zero) w
        (sold_out-Entered id f w h) (run_sales-Booked sales zero)
  run_sales-Booked ((id, sound) ∷ sales) (suc n) w (stock, free) =
      let (answered, (left, gone, published)) = use_item-Ended y id n w free (inl stock) sound in
      entry-Booked (id, sound) sales (some (reply_of n)) (event_of id n ∷ []) n (books sales n) w
        (answered, published, (left, gone)) (run_sales-Booked sales n)
  run_sales-Booked ((id, unsent) ∷ sales) (suc n) w (stock, free) =
      let (answered, (left, gone, published)) = use_item-Ended y id n w free (inl stock) unsent in
      entry-Booked (id, unsent) sales none [] (suc n) (books sales (suc n)) w
        (answered, published, (left, gone)) (run_sales-Booked sales (suc n))
  run_sales-Booked ((id, unanswered) ∷ sales) (suc n) w (stock, free) =
      let (answered, (left, gone, published)) =
        use_item-Ended y id n w free (inl stock) unanswered in
      entry-Booked (id, unanswered) sales none (event_of id n ∷ []) (suc n) (books sales (suc n)) w
        (answered, published, (left, gone)) (run_sales-Booked sales (suc n))
