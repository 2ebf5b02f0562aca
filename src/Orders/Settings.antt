-- ===== src/Orders/Settings.antt =====
-- The settings of the order consumer (order-consumer/src/main.ts and order-consumer/src/app.module.ts),
-- which reads the environment itself, beside those of the server (src/kafka/kafka.module.ts), for which
-- src/config/config.schema.ts fills in the defaults.
use mathlib.Core.Bool.{not}
use redis_api.Common.{◌≡◌, ◌∙◌, refl, sym, ap, Bool, false, Option, none, some, List, [], ◌∷◌}
use redis_api.Common.Int.{ℤ}
use redis_api.Text.{Str, codes, ◌===◌}
use redis_api.Text.Decimal.{parse_int}
use redis_api.Config.{
  Env, rule, Presence, required, defaulted, ◌>>=◌, string, KafkaOptions, kafka_options,
  config_schema, LoggerOptions,
}
use redis_api.Config.Joi.{Joi, rule_of, value_or}

-- `process.env.KEY ?? d`
abbrev pub or_else : Option Str → Str → Str
or_else none d = d
or_else (some v) d = v

-- The options of `createMicroservice` in `bootstrap`
pub record ConsumerOptions : Type 0 where
  pub client_id : Str
  pub brokers : List Str
  pub username : Str
  pub password : Str
  pub group_id : Str
  pub auto_commit : Bool

unfoldable pub consumer_options : Env → ConsumerOptions
consumer_options env = record {
  client_id = codes "order-consumer";
  brokers = or_else (env (codes "KAFKA_BROKER")) (codes "localhost:9092") ∷ [];
  username = or_else (env (codes "KAFKA_USER")) [];
  password = or_else (env (codes "KAFKA_PASSWORD")) [];
  group_id = codes "order-consumer-group";
  auto_commit = false;
}

-- `process.env.NODE_ENV !== 'production'`
abbrev pub not_production : Env → Bool
not_production env = not (is_production (env (codes "NODE_ENV")))
  where
    is_production : Option Str → Bool
    is_production none = false
    is_production (some v) = v === codes "production"

-- The options of pinoHttp, with whether its lines are pretty-printed.
unfoldable pub consumer_logger : Env → LoggerOptions
consumer_logger env = record {
  level = or_else (env (codes "LOG_LEVEL")) (codes "info");
  pretty = not_production env;
}

-- The options of TypeOrmModule; a port that is no number is NaN, `none`.
pub record TableOptions : Type 0 where
  pub host : Str
  pub port : Option ℤ
  pub username : Str
  pub password : Str
  pub database : Str
  pub synchronize : Bool

unfoldable pub table_options : Env → TableOptions
table_options env = record {
  host = or_else (env (codes "POSTGRES_HOST")) (codes "localhost");
  port = parse_int (or_else (env (codes "POSTGRES_PORT")) (codes "5432"));
  username = or_else (env (codes "POSTGRES_USER")) (codes "postgres");
  password = or_else (env (codes "POSTGRES_PASSWORD")) (codes "postgres");
  database = or_else (env (codes "POSTGRES_DB")) (codes "orders");
  synchronize = not_production env;
}

given_or : (v : Option Str) (d b : Str) → value_or v (defaulted d) ≡ some b → or_else v d ≡ b
given_or none d b h = cc
given_or (some v) d b h = cc

given : (v : Option Str) (d b : Str) → value_or v required ≡ some b → or_else v d ≡ b
given none d b h = cc
given (some v) d b h = cc

abbrev Asked : Option Str → Option Str → Option Str → KafkaOptions → Type 0
Asked x y z o =
    (b : Str) × (x ≡ some b) × (o.brokers ≡ b ∷ []) × (y ≡ some o.username) × (z ≡ some o.password)

options_of : Option KafkaOptions → KafkaOptions → KafkaOptions
options_of none d = d
options_of (some o) d = o

read_three :
    (x y z : Option Str) (o : KafkaOptions)
    → (x >>= λ b. y >>= λ u. z >>= λ p. some (record {
      client_id = codes "redis-api-producer";
      brokers = b ∷ [];
      username = u;
      password = p;
    }))
      ≡ some o
    → Asked x y z o
unfolding options_of
read_three none y z o e = cc
read_three (some b) none z o e = cc
read_three (some b) (some u) none o e = cc
read_three (some b) (some u) (some p) o e =
    let same = ap (λ q. options_of q o) e in
    (
      b,
      refl,
      ap (λ (q : KafkaOptions). q.brokers) (sym same),
      ap (λ (q : KafkaOptions). some q.username) same,
      ap (λ (q : KafkaOptions). some q.password) same,
    )

value :
    (joi : Joi) (env valid : Env) (key : Str) (presence : Presence)
    → joi.validate config_schema env ≡ some valid
    → rule_of key config_schema ≡ some (rule key string presence)
    → valid key ≡ value_or (env key) presence
value joi env valid key presence accepted h =
    joi.validate-string config_schema env valid key (rule key string presence) h refl accepted

-- The server, in an environment that the schema accepts, and the consumer in the same one connect to the
-- same Kafka broker with the same password; the user is that of KAFKA_USER for both, and where it is
-- not set, it is `admin` for the server and an empty text for the consumer.
pub same_broker :
    (joi : Joi) (env valid : Env) (o : KafkaOptions)
    → joi.validate config_schema env ≡ some valid
    → kafka_options valid ≡ some o
    → ((consumer_options env).brokers ≡ o.brokers)
      × ((consumer_options env).password ≡ o.password)
      × (o.username ≡ or_else (env (codes "KAFKA_USER")) (codes "admin"))
      × ((consumer_options env).username ≡ or_else (env (codes "KAFKA_USER")) [])
unfolding kafka_options consumer_options config_schema rule_of ◌===◌
same_broker joi env valid o accepted e =
    let (b, broker, brokers, user, password) =
      read_three (valid (codes "KAFKA_BROKER")) (valid (codes "KAFKA_USER"))
        (valid (codes "KAFKA_PASSWORD")) o e in
    (
      ap (λ x. x ∷ [])
            (given_or (env (codes "KAFKA_BROKER")) (codes "localhost:9092") b
              (sym (value joi env valid _ _ accepted refl) ∙ broker))
          ∙ sym brokers,
      given (env (codes "KAFKA_PASSWORD")) [] o.password
          (sym (value joi env valid _ required accepted refl) ∙ password),
      sym (
          given_or (env (codes "KAFKA_USER")) (codes "admin") o.username
            (sym (value joi env valid _ _ accepted refl) ∙ user)),
      refl,
    )
