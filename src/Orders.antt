-- ===== src/Orders.antt =====
-- OrderService and OrderConsumer of order-consumer/src/orders: events are buffered, written to
-- Postgres in batches with retries, and their offsets committed to Kafka. Log lines are left out.
-- An offset, in Kafka a decimal text, is kept as its number.
pub mod Commit
pub mod World
pub mod Stop
pub mod Memory
pub mod Flush
pub mod Replay
pub mod DeadLetter
pub mod Service
pub mod Clashes
pub mod Shutdown
pub mod Queue
pub mod Patience
pub mod Consumer
pub mod Settings
mod Tests
use redis_api.Common.{
  ℕ, zero, suc, ◌+◌, ◌-◌, ◌*◌, ◌^◌, Bool, true, false, ◌&&◌, Option, none, some, Answer, answer,
  error, List, [], ◌∷◌, ◌++◌, map, length, take, drop, ltb, leb, ◌==◌, if◌then◌else◌,
}
use mathlib.Core.List.{foldl}
use mathlib.Core.Bool.{not}
use redis_api.Common.Int.{ℤ}
use redis_api.Text.{Str}
use redis_api.Effect.{Prog, ret, call, request, ◌>>=◌, ◌>>◌}

abbrev pub batch_size : ℕ
batch_size = 3

abbrev pub max_retries : ℕ
max_retries = 5

abbrev pub retry_base_ms : ℕ
retry_base_ms = 200

-- InventoryEventDto of the consumer
pub record Dto : Type 0 where
  pub remaining : ℤ
  pub success : Bool
  pub message : Str
  pub correlation_id : Option Str

-- BufferedEvent, with what the service reads of the KafkaContext
pub record Event : Type 0 where
  pub dto : Dto
  pub topic : Str
  pub partition : ℕ
  pub offset : ℕ

-- The columns of `Order` that the service writes.
pub record Order : Type 0 where
  pub remaining : ℤ
  pub success : Bool
  pub message : Str
  pub correlation_id : Option Str
  pub kafka_partition : ℕ
  pub kafka_offset : ℕ

-- The callback of `batch.map` in `flush`
abbrev pub to_order : Event → Order
to_order e = record {
  remaining = e.dto.remaining;
  success = e.dto.success;
  message = e.dto.message;
  correlation_id = e.dto.correlation_id;
  kafka_partition = e.partition;
  kafka_offset = e.offset;
}

pub record Entry : Type 0 where
  pub topic : Str
  pub partition : ℕ
  pub offset : ℕ

abbrev pub entry_of : Event → Entry
entry_of e = record { topic = e.topic; partition = e.partition; offset = e.offset }

-- One round of the loop of `commitOffsets`, on the entries of `map` in the order of insertion.
unfoldable pub note_offset : List Entry → Event → List Entry
note_offset [] e = entry_of e ∷ []
note_offset (x ∷ xs) e =
    if x.partition == e.partition
    then (if ltb x.offset e.offset then entry_of e else x) ∷ xs
    else x ∷ note_offset xs e

abbrev pub next_offset : Entry → Entry
next_offset x = record x { offset = x.offset + 1 }

-- The argument of `consumer.commitOffsets`; commit_step has what happens on an empty batch.
unfoldable pub commits : List Event → List Entry
unfolding note_offset
commits batch = map next_offset (foldl note_offset [] batch)

pub data Call : Type 0 where
  -- `repo.save(orders)`: entities without an id are inserted; a save that succeeds gives them ids,
  -- and a later save of the same entities updates their rows.
  insert update : List Order → Call
  commit_offsets : List Entry → Call
  sleep : ℕ → Call

abbrev pub Reply : Call → Type 0
Reply c = Unit {0}

abbrev pub Method : Type 0 → Type 0
Method = Prog Call Reply

-- How one attempt ends: whether it succeeded, or else whether the entities have ids.
pub data Attempt : Type 0 where
  done : Attempt
  failed : Bool → Attempt

-- `catch (err)`: wait, twice as long after each attempt.
unfoldable pub back_off : ℕ → Bool → Method Attempt
back_off attempt stored = do
  request (sleep (retry_base_ms * 2 ^ (attempt - 1)))
  ret (failed stored)

-- The rest of an attempt once `commitOffsets` was answered.
unfoldable pub commit_end : ℕ → Answer (Unit {0}) → Method Attempt
unfolding back_off
commit_end attempt (answer u) = ret done
commit_end attempt error = back_off attempt true

-- `commitOffsets` in the `try`: on an empty batch, `batch[0].context` throws before the call.
unfoldable pub commit_step : List Event → ℕ → Method Attempt
unfolding commit_end commits
commit_step [] attempt = back_off attempt true
commit_step (e ∷ es) attempt = call (commit_offsets (commits (e ∷ es))) (commit_end attempt)

-- The rest of an attempt once the save was answered.
unfoldable pub save_end : List Event → ℕ → Bool → Answer (Unit {0}) → Method Attempt
unfolding commit_step back_off
save_end batch attempt stored (answer u) = commit_step batch attempt
save_end batch attempt stored error = back_off attempt stored

abbrev pub save_call : Bool → List Order → Call
save_call true orders = update orders
save_call false orders = insert orders

-- The `try` of `flush` and its catch: an error of the save or of the commit ends the attempt.
unfoldable pub try_batch : List Event → ℕ → Bool → Method Attempt
unfolding save_end
try_batch batch attempt stored =
    call (save_call stored (map to_order batch)) (save_end batch attempt stored)

-- `return`, or on to the next round.
abbrev pub next_attempt : (Bool → Method Bool) → Attempt → Method Bool
next_attempt again done = ret true
next_attempt again (failed stored) = again stored

-- The `for` loop of `flush`; whether the batch was saved and committed, not dead-lettered.
unfoldable pub flush_loop : List Event → ℕ → ℕ → Bool → Method Bool
unfolding try_batch
flush_loop batch zero attempt stored = ret false
flush_loop batch (suc left) attempt stored = do
  result ← try_batch batch attempt stored
  next_attempt (λ stored'. flush_loop batch left (attempt + 1) stored') result

unfoldable pub flush : List Event → Method Bool
unfolding flush_loop
flush batch = flush_loop batch max_retries 1 false

-- The fields of OrderService
pub record Buffer : Type 0 where
  pub buffer : List Event
  pub flushing : Bool

-- The start of `flush`: what it takes, and the flag.
abbrev pub begin_flush : Buffer → Buffer × List Event
begin_flush s = (record s { flushing = true }, take batch_size s.buffer)

-- `this.buffer.splice(0, batch.length); this.flushing = false`, on both ends of `flush`
abbrev pub end_flush : List Event → Buffer → Buffer
end_flush batch s = record { buffer = drop (length batch) s.buffer; flushing = false }

-- `createFromEvent` up to the first await: the batch is there if a flush begins.
abbrev pub started : Buffer × List Event → Buffer × Option (List Event)
started (s, batch) = (s, some batch)

unfoldable pub create_from_event : Event → Buffer → Buffer × Option (List Event)
create_from_event e s =
    let s' : Buffer = record s { buffer = s.buffer ++ e ∷ [] } in
    if leb batch_size (length s'.buffer) && not s'.flushing
    then started (begin_flush s')
    else (s', none)

-- `onModuleDestroy`: no flag is read.
unfoldable pub on_module_destroy : Buffer → Buffer × Option (List Event)
on_module_destroy s = elim s.buffer [ [] ↦ (s, none) | e ∷ es ↦ started (begin_flush s) ]
