-- ===== src/Orders/Shutdown.antt =====
-- `onModuleDestroy` of order-consumer/src/orders/order.service.ts while a flush is on its way.
use redis_api.Common.{◌≡◌, refl, Bool, true, false, some, List, [], ◌∷◌, ◌++◌, length, drop, arith}
use redis_api.Orders.{Event, Buffer, batch_size, end_flush, on_module_destroy}
use redis_api.Orders.Service.{InFlight}

-- The buffer after the shutdown and the ends of both flushes, on a buffer of its own.
repeated :
    (batch rest : List Event)
    → length batch ≡ batch_size
    → ((on_module_destroy (record { buffer = batch ++ rest; flushing = true })).1 ≡ some batch)
      × ((end_flush batch (
            end_flush batch
              (on_module_destroy (record { buffer = batch ++ rest; flushing = true })).0)).buffer
          ≡ drop batch_size rest)
unfolding on_module_destroy
repeated (a ∷ b ∷ c ∷ []) rest three = (refl, refl)
repeated [] rest three = absurd (omega (arith, three))
repeated (a ∷ []) rest three = absurd (omega (arith, three))
repeated (a ∷ b ∷ []) rest three = absurd (omega (arith, three))
repeated (a ∷ b ∷ c ∷ d ∷ ds) rest three = absurd (omega (arith, three))

-- The same, of whatever state.
abbrev pub TakenTwice : List Event → List Event → Buffer → Type 0
TakenTwice batch rest s =
    ((on_module_destroy s).1 ≡ some batch)
    × ((end_flush batch (end_flush batch (on_module_destroy s).0)).buffer ≡ drop batch_size rest)

-- A shutdown while a flush is in flight begins a second flush of the same batch; and once both have
-- ended, the next three events behind the batch, or as many as there are, are gone from the buffer,
-- though no flush has taken them.
pub destroy_repeats :
    (batch rest : List Event) (flushing : Bool)
    → InFlight (some batch) (record { buffer = batch ++ rest; flushing = flushing })
    → TakenTwice batch rest (record { buffer = batch ++ rest; flushing = flushing })
destroy_repeats batch rest true (busy, three, front) = repeated batch rest three
destroy_repeats batch rest false (busy, three, front) = cc
