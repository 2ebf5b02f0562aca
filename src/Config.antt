-- ===== src/Config.antt =====
-- The configuration: src/config/config.schema.ts, and the settings that src/redis/redis.service.ts,
-- src/kafka/kafka.module.ts, src/app.module.ts, the Keycloak service and the providers of src/auth
-- read. Joi, which applies the schema, is a parameter, in the child `Joi`.
pub mod Joi
pub mod Startup
mod Tests
use mathlib.Core.Bool.{not}
use redis_api.Common.{Bool, Option, none, some, List, [], ◌∷◌}
use redis_api.Text.{Str, codes, ◌===◌}

-- The environment, as ConfigService reads it.
abbrev pub Env : Type 0
Env = Str → Option Str

pub data Presence : Type 0 where
  required : Presence
  defaulted : Str → Presence
  optional : Presence

-- `Joi.string()`, with the values of `valid` or with `allow('')`; `Joi.number().integer().positive()`
pub data Kind : Type 0 where
  string : Kind
  one_of : List Str → Kind
  string_or_empty : Kind
  positive_integer : Kind

pub record Rule : Type 0 where
  pub key : Str
  pub kind : Kind
  pub presence : Presence

abbrev pub rule : Str → Kind → Presence → Rule
rule key kind presence = record { key = key; kind = kind; presence = presence }

abbrev pub auth_provider_type : Str
auth_provider_type = codes "AUTH_PROVIDER_TYPE"

-- configValidationSchema
unfoldable pub config_schema : List Rule
config_schema =
    rule (codes "NODE_ENV") (one_of (codes "development" ∷ codes "production" ∷ codes "test" ∷ []))
      (defaulted (codes "development"))
    ∷ rule (codes "LOG_LEVEL")
        (one_of (codes "trace" ∷ codes "debug" ∷ codes "info" ∷ codes "warn" ∷ codes "error" ∷ []))
        (defaulted (codes "info"))
    ∷ rule auth_provider_type (one_of (codes "keycloak" ∷ codes "entra-id" ∷ []))
        (defaulted (codes "keycloak"))
    ∷ rule (codes "REDIS_HOST") string (defaulted (codes "localhost"))
    ∷ rule (codes "REDIS_PORT") positive_integer (defaulted (codes "6379"))
    ∷ rule (codes "REDIS_PASSWORD") string required
    ∷ rule (codes "KAFKA_BROKER") string (defaulted (codes "localhost:9092"))
    ∷ rule (codes "KAFKA_USER") string (defaulted (codes "admin"))
    ∷ rule (codes "KAFKA_PASSWORD") string required
    ∷ rule (codes "KEYCLOAK_JWKS_URI") string
        (defaulted (codes "http://keycloak:8080/realms/redis-api/protocol/openid-connect/certs"))
    ∷ rule (codes "KEYCLOAK_ISSUER") string
        (defaulted (codes "http://localhost:8080/realms/redis-api"))
    ∷ rule (codes "KEYCLOAK_AUDIENCE") string (defaulted (codes "product-api"))
    ∷ rule (codes "KEYCLOAK_INTERNAL_URL") string (defaulted (codes "http://keycloak:8080"))
    ∷ rule (codes "KEYCLOAK_REALM") string (defaulted (codes "redis-api"))
    ∷ rule (codes "KEYCLOAK_LOGIN_CLIENT_ID") string (defaulted (codes "api-test"))
    ∷ rule (codes "KEYCLOAK_ADMIN_CLIENT_ID") string (defaulted (codes "auth-service"))
    ∷ rule (codes "KEYCLOAK_ADMIN_CLIENT_SECRET") string required
    ∷ rule (codes "ENTRA_TENANT_ID") string_or_empty optional
    ∷ rule (codes "ENTRA_CLIENT_ID") string_or_empty optional
    ∷ []

-- `config.getOrThrow` is a lookup that throws at `none`; so do the constructors that call it.
abbrev pub get_or_throw : Env → Str → Option Str
get_or_throw env key = env key

infixl 5 ◌>>=◌
abbrev pub ◌>>=◌ : {A B : Type 0} → Option A → (A → Option B) → Option B
none >>= f = none
some a >>= f = f a

-- `new Redis(…)` in the constructor of RedisService
pub record RedisOptions : Type 0 where
  pub host : Str
  pub port : Str
  pub password : Str

unfoldable pub redis_options : Env → Option RedisOptions
redis_options env = do
  host ← get_or_throw env (codes "REDIS_HOST")
  port ← get_or_throw env (codes "REDIS_PORT")
  password ← get_or_throw env (codes "REDIS_PASSWORD")
  some (record { host = host; port = port; password = password })

-- The factory of KAFKA_CLIENT
pub record KafkaOptions : Type 0 where
  pub client_id : Str
  pub brokers : List Str
  pub username : Str
  pub password : Str

unfoldable pub kafka_options : Env → Option KafkaOptions
kafka_options env = do
  broker ← get_or_throw env (codes "KAFKA_BROKER")
  username ← get_or_throw env (codes "KAFKA_USER")
  password ← get_or_throw env (codes "KAFKA_PASSWORD")
  some (record {
    client_id = codes "redis-api-producer";
    brokers = broker ∷ [];
    username = username;
    password = password;
  })

-- The factory of the logger: its level, and whether its lines are pretty-printed.
pub record LoggerOptions : Type 0 where
  pub level : Str
  pub pretty : Bool

unfoldable pub logger_options : Env → Option LoggerOptions
logger_options env = do
  level ← get_or_throw env (codes "LOG_LEVEL")
  node_env ← get_or_throw env (codes "NODE_ENV")
  some (record { level = level; pretty = not (node_env === codes "production") })
