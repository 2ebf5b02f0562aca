-- ===== src/Wiring.antt =====
-- The modules of src: what src/app.module.ts, src/auth/auth.module.ts, src/redis/redis.module.ts,
-- src/kafka/kafka.module.ts and src/product/product.module.ts, and in order-consumer/src app.module.ts
-- and orders/order.module.ts, import, provide and export, and what the constructors ask for.
mod Sight
use redis_api.Common.{List, [], ◌∷◌, ◌++◌}
use redis_api.Text.{Str, codes}

-- A class or a factory with what NestJS passes to it.
pub record Component : Type 0 where
  pub token : Str
  pub needs : List Str

pub data ModuleName : Type 0 where
  app_module auth_module redis_module kafka_module product_module consumer_app_module order_module :
      ModuleName

pub record Module : Type 0 where
  pub imports : List ModuleName
  pub libraries : List Str
  pub controllers : List Component
  pub providers : List Component
  -- those of `consumer.apply`
  pub middleware : List Component
  pub exports : List Str

abbrev component : Str → List Str → Component
component token needs = record { token = token; needs = needs }

abbrev pub config_service : Str
config_service = codes "ConfigService"

abbrev pub reflector : Str
reflector = codes "Reflector"

abbrev auth_provider : Str
auth_provider = codes "AUTH_PROVIDER"

abbrev identity_service : Str
identity_service = codes "IDENTITY_SERVICE"

abbrev pub kafka_client : Str
kafka_client = codes "KAFKA_CLIENT"

-- `InjectPinoLogger(name)`
abbrev pub logger_of : Str → Str
logger_of name = codes "PinoLogger:" ++ name

abbrev redis_service : Component
redis_service =
    component (codes "RedisService") (logger_of (codes "RedisService") ∷ config_service ∷ [])

abbrev rate_limiter_middleware : Component
rate_limiter_middleware = component (codes "RateLimiterMiddleware") (codes "RedisService" ∷ [])

abbrev kafka_producer_service : Component
kafka_producer_service = component (codes "KafkaProducerService") (kafka_client ∷ [])

abbrev product_controller : Component
product_controller = component (codes "ProductController") (
    logger_of (codes "ProductController")
    ∷ codes "RedisService"
    ∷ codes "KafkaProducerService"
    ∷ [])

abbrev keycloak_provider : Component
keycloak_provider = component (codes "KeycloakProvider") (config_service ∷ [])

abbrev entra_id_provider : Component
entra_id_provider = component (codes "EntraIdProvider") (config_service ∷ [])

abbrev keycloak_identity_service : Component
keycloak_identity_service =
    component (codes "KeycloakIdentityService")
      (logger_of (codes "KeycloakIdentityService") ∷ config_service ∷ [])

abbrev bloom_filter_service : Component
bloom_filter_service = component (codes "BloomFilterService") (codes "RedisService" ∷ [])

abbrev jwt_strategy : Component
jwt_strategy = component (codes "JwtStrategy") (auth_provider ∷ [])

abbrev jwt_auth_guard_class : Component
jwt_auth_guard_class = component (codes "JwtAuthGuard") (reflector ∷ [])

abbrev roles_guard_class : Component
roles_guard_class = component (codes "RolesGuard") (reflector ∷ auth_provider ∷ [])

abbrev auth_controller : Component
auth_controller =
    component (codes "AuthController")
      (logger_of (codes "AuthController") ∷ identity_service ∷ codes "BloomFilterService" ∷ [])

-- The factories of AUTH_PROVIDER and IDENTITY_SERVICE with their `inject`.
abbrev auth_provider_factory : Component
auth_provider_factory =
    component auth_provider
      (config_service ∷ codes "KeycloakProvider" ∷ codes "EntraIdProvider" ∷ [])

abbrev identity_service_factory : Component
identity_service_factory =
    component identity_service
      (config_service ∷ codes "KeycloakIdentityService" ∷ codes "EntraIdIdentityService" ∷ [])

abbrev pub order_repository : Str
order_repository = codes "Repository:Order"

abbrev order_consumer : Component
order_consumer =
    component (codes "OrderConsumer")
      (logger_of (codes "OrderConsumer") ∷ codes "OrderService" ∷ [])

-- `InjectRepository(Order)`
abbrev order_service : Component
order_service =
    component (codes "OrderService") (logger_of (codes "OrderService") ∷ order_repository ∷ [])

-- What the decorator of each module says.
abbrev app_module_metadata : Module
app_module_metadata = record {
  imports = auth_module ∷ redis_module ∷ product_module ∷ kafka_module ∷ [];
  libraries = codes "ConfigModule" ∷ codes "LoggerModule" ∷ [];
  controllers = component (codes "AppController") [] ∷ [];
  providers = jwt_auth_guard_class ∷ roles_guard_class ∷ [];
  middleware = component (codes "CorrelationIdMiddleware") [] ∷ [];
  exports = [];
}

abbrev auth_module_metadata : Module
auth_module_metadata = record {
  imports = redis_module ∷ [];
  libraries = codes "PassportModule" ∷ [];
  controllers = auth_controller ∷ [];
  providers =
      keycloak_provider
      ∷ entra_id_provider
      ∷ auth_provider_factory
      ∷ keycloak_identity_service
      ∷ component (codes "EntraIdIdentityService") []
      ∷ identity_service_factory
      ∷ jwt_strategy
      ∷ jwt_auth_guard_class
      ∷ roles_guard_class
      ∷ bloom_filter_service
      ∷ [];
  middleware = rate_limiter_middleware ∷ [];
  exports = codes "JwtAuthGuard" ∷ codes "RolesGuard" ∷ codes "PassportModule" ∷ auth_provider ∷ [];
}

abbrev redis_module_metadata : Module
redis_module_metadata = record {
  imports = [];
  libraries = [];
  controllers = [];
  providers = redis_service ∷ [];
  middleware = [];
  exports = codes "RedisService" ∷ [];
}

abbrev kafka_module_metadata : Module
kafka_module_metadata = record {
  imports = [];
  libraries = codes "ClientsModule" ∷ [];
  controllers = [];
  providers = kafka_producer_service ∷ [];
  middleware = [];
  exports = codes "KafkaProducerService" ∷ [];
}

abbrev product_module_metadata : Module
product_module_metadata = record {
  imports = redis_module ∷ kafka_module ∷ [];
  libraries = [];
  controllers = product_controller ∷ [];
  providers = [];
  middleware = rate_limiter_middleware ∷ [];
  exports = [];
}

abbrev consumer_app_module_metadata : Module
consumer_app_module_metadata = record {
  imports = order_module ∷ [];
  libraries = codes "LoggerModule" ∷ codes "TypeOrmModule" ∷ [];
  controllers = [];
  providers = [];
  middleware = [];
  exports = [];
}

abbrev order_module_metadata : Module
order_module_metadata = record {
  imports = [];
  libraries = codes "TypeOrmModule" ∷ [];
  controllers = order_consumer ∷ [];
  providers = order_service ∷ [];
  middleware = [];
  exports = [];
}

abbrev pub declared : ModuleName → Module
declared app_module = app_module_metadata
declared auth_module = auth_module_metadata
declared redis_module = redis_module_metadata
declared kafka_module = kafka_module_metadata
declared product_module = product_module_metadata
declared consumer_app_module = consumer_app_module_metadata
declared order_module = order_module_metadata

abbrev pub components : ModuleName → List Component
components m = (declared m).controllers ++ ((declared m).providers ++ (declared m).middleware)
