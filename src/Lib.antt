-- ===== src/Lib.antt =====
-- The inventory service and its order consumer: a NestJS server that sells items of one stock kept
-- in Redis and announces each sale on Kafka, and a consumer that writes the announced sales to
-- Postgres in batches. Usernames are registered with Keycloak behind a Bloom filter kept in Redis.
--
-- How the parts interact. ProductController (src/product/product.controller.ts) takes a lock in
-- Redis, runs a Lua script that decrements the stock, releases the lock, and emits an event; where
-- the emit fails it increments the stock again. RateLimiterMiddleware runs before its routes, on a
-- leaky bucket that is a Lua script as well. OrderService
-- (order-consumer/src/orders/order.service.ts) buffers the events, saves them in batches with
-- retries, and commits their offsets. AuthController (src/auth/auth.controller.ts) asks
-- BloomFilterService before it registers a user with the identity service, and adds the username
-- to the filter after that.
--
-- The files.
--   Common, Text: shared notation, lists, integers; texts as lists of character codes, with the
--     decimal texts that Redis keeps numbers as.
--   Effect: an asynchronous method is a program of calls (Prog). A call is answered or rejected,
--     and between two calls other requests may run. try_finally, try_catch and throw are those
--     of the source; run executes a method with nothing in between.
--   Config: the environment as configValidationSchema (src/config/config.schema.ts) lets it
--     through, and the settings that RedisService, the Kafka client and the logger read. Joi is
--     a parameter; Startup has what can be read.
--   Redis: Server, the commands on string keys, is a parameter with documented laws. Scripts has
--     RELEASE_LOCK_SCRIPT and CHECK_AND_DECREMENT_SCRIPT of src/redis/redis.service.ts;
--     Inventory and Lock have what they do, Memory a server to run them on.
--   Service: the methods of RedisService on string keys and KafkaProducerService.emit. World has
--     the server, a broker, and the faults of calls: a call is answered, or never sent, or
--     carried out while its answer is lost. Exclusion is about acquireLock and releaseLock while
--     the lock is held.
--   Product: useItem is use_item, with lock_loop, with_token, take_item and deliver for its parts
--     in order; getInventory and resetInventory are get_inventory and reset_inventory. Sale,
--     SoldOut and Contention are about a request that runs alone, with the lock free or held by
--     another, Stock about reading and resetting. Ledger has any number of requests of all three
--     kinds interleaved at every call (System), what each of them owes (Owes), what a call does
--     (Holds, Decrement, Movements, Calls), and the count of items (Invariant, Conservation),
--     and how many calls they make at most (Within, Ends); Schedule runs it in memory. Counter
--     compares the calls on the stock with a counter.
--   Limiter: leakyBucket with its script (leaky_bucket), and the middleware (use_limiter), on hash
--     commands that are a parameter (HashServer). Pour is the script at a leak rate above 0;
--     Bounds, Traffic, Burst and Clients have the theorems.
--   Orders: flush, its loop of attempts, commitOffsets (commits), createFromEvent and
--     onModuleDestroy. World has the table with the unique key of order.entity.ts, and the
--     offsets of the consumer group. Commit, Flush, Replay and DeadLetter are about one flush,
--     Service about events that arrive while a flush waits, Queue about the queue that this
--     refines, Patience about the waits of a flush, Shutdown about onModuleDestroy during a
--     flush. Consumer is OrderConsumer (order-consumer/src/orders/order.consumer.ts) on all
--     events of its topic, Calm while no call fails, Restart when consumers crash and new ones
--     read on from the committed offset (Progress, Batches, Resume), Crash when one reads a
--     batch again that was saved and not committed; a crash is a stop after a number of calls
--     (Stop, Flush/Stops, Replay/Stops). Settings is what order-consumer/src/main.ts and
--     app.module.ts read of the environment. Clashes has the lemmas on the unique key, Memory a
--     table to run them on.
--   Auth: Bloom is BloomFilterService, Keycloak is KeycloakIdentityService, Controller is
--     AuthController, Guards has both guards and the role extraction. World has a bit array and
--     an identity server, both parameters. Registration and Filter are about the filter when
--     users register, Taken about usernames that the identity server has already
--     (Keycloak/Users; Directory is such a server in memory), Race about registrations that run
--     at the same time, Calls about the calls that a method makes. Strategy is what
--     src/auth/providers and src/auth/jwt.strategy.ts hand to passport.
--   Http: the routes with their decorators; Validation, the DTOs of src/auth/dto; Pipeline, a
--     request from its arrival to its reply, through CorrelationIdMiddleware,
--     RateLimiterMiddleware, both guards of src/app.module.ts, the validation and the handler.
--     The Reflector of NestJS, passport and IsEmail are a parameter (Framework). Access is about
--     who reaches which handler, Traces about a sale from the request to the event.
--   Delivery: sales at the controller, one after the other, and the rows that the order consumer
--     makes of their events. Kafka, in between, keeps the events in order; Stored is about a
--     consumer none of whose calls fails, Crashes about one that crashes and is restarted,
--     Concurrent about sales that are interleaved, with such a consumer.
--   Benchmark: both rounds of test-benchmark.mjs, against a server that is a parameter; Rounds is
--     about when they end, Limited about a route behind the limiter.
--   UseItemTest: test-use-item.mjs, both waves and the assertions, against a server that is a
--     parameter; Stock is about servers that keep their stock as the controller does.
--   RateLimiterTest: test-rate-limiter.mjs, against a server that is a parameter and answers every
--     request; Allowed is about a server behind the middleware.
--   Wiring: the modules of both programs with their imports, providers and exports, and what each
--     constructor asks for; Sight is about what each sees; which tokens a module sees is what
--     NestJS documents.
--
-- Numbers. Counts, times in milliseconds and offsets are natural numbers; a stock is an integer.
-- The hashes of the filter are written out on 32 bits. The levels of the bucket are thousandths of
-- a request, in which a whole leak rate drains a whole number each millisecond; the rounding of
-- the script's floats is left out. The loops of useItem and flush run on the number of attempts
-- that is left, from the constants of the source. Only rate_limited_loop, which may go on for
-- ever, has fuel: each round that serves a request brings it nearer to 1000, so that 1001 is
-- enough where each does, and 41 behind the limiter.
--
-- Not modelled: log lines; the start of both programs, which only calls NestJS; connecting to
-- Redis and Kafka; passport and the keys of tokens; the encoding of HTTP bodies; deployment. A
-- failed save in Postgres writes nothing, since a save is a transaction.
pub mod Common
pub mod Text
pub mod Effect
pub mod Config
pub mod Redis
pub mod Service
pub mod Product
pub mod Limiter
pub mod Orders
pub mod Auth
pub mod Http
pub mod Delivery
pub mod Benchmark
pub mod UseItemTest
pub mod RateLimiterTest
pub mod Wiring
