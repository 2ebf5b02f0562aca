-- ===== src/Auth/Strategy.antt =====
-- What src/auth/auth.module.ts, src/auth/providers and src/auth/jwt.strategy.ts set up for passport,
-- and the settings of src/auth/services/keycloak-identity.service.ts.
use redis_api.Common.{◌≡◌, ◌≢◌, ◌++◌, Option, none, some, List, [], ◌∷◌, if◌then◌else◌}
use redis_api.Text.{Str, codes, ◌===◌}
use redis_api.Config.{
  Env, redis_options, kafka_options, logger_options, config_schema, get_or_throw, ◌>>=◌,
}
use redis_api.Config.Joi.{Joi}
use redis_api.Config.Startup.{schema-IsRead, bind-ne-none, startup_reads}
use redis_api.Auth.Guards.{Provider, keycloak, entra_id}
use redis_api.Auth.Keycloak.{Config}

-- The factory of AUTH_PROVIDER: `config.get('AUTH_PROVIDER_TYPE') === 'entra-id'`
unfoldable pub select_provider : Option Str → Provider
select_provider none = keycloak
select_provider (some kind) = if kind === codes "entra-id" then entra_id else keycloak

-- `config.get(key, '')`
abbrev pub or_empty : Option Str → Str
or_empty none = []
or_empty (some v) = v

-- `getJwksUri`, `getIssuer`, `getAudience` of both providers
unfoldable pub jwks_uri : Provider → Env → Option Str
jwks_uri keycloak env = get_or_throw env (codes "KEYCLOAK_JWKS_URI")
jwks_uri entra_id env = some (
    codes "https://login.microsoftonline.com/"
    ++ or_empty (env (codes "ENTRA_TENANT_ID"))
    ++ codes "/discovery/v2.0/keys")

unfoldable pub issuer : Provider → Env → Option Str
issuer keycloak env = get_or_throw env (codes "KEYCLOAK_ISSUER")
issuer entra_id env = some (
    codes "https://login.microsoftonline.com/"
    ++ or_empty (env (codes "ENTRA_TENANT_ID"))
    ++ codes "/v2.0")

-- An audience that is undefined is not checked.
unfoldable pub audience : Provider → Env → Option (Option Str)
audience keycloak env = do value ← get_or_throw env (codes "KEYCLOAK_AUDIENCE"); some (some value)
audience entra_id env = some (env (codes "ENTRA_CLIENT_ID"))

-- The argument of `super` in the constructor of JwtStrategy
pub record StrategyOptions : Type 0 where
  pub keys_uri : Str
  pub issuer : Str
  pub audience : Option Str
  pub algorithms : List Str

unfoldable pub strategy_options : Provider → Env → Option StrategyOptions
unfolding jwks_uri issuer audience
strategy_options provider env = do
  uri ← jwks_uri provider env
  iss ← issuer provider env
  aud ← audience provider env
  some (record { keys_uri = uri; issuer = iss; audience = aud; algorithms = codes "RS256" ∷ [] })

-- The getters of KeycloakIdentityService
unfoldable pub keycloak_config : Env → Option Config
keycloak_config env = do
  base_url ← get_or_throw env (codes "KEYCLOAK_INTERNAL_URL")
  realm ← get_or_throw env (codes "KEYCLOAK_REALM")
  login_client ← get_or_throw env (codes "KEYCLOAK_LOGIN_CLIENT_ID")
  admin_client ← get_or_throw env (codes "KEYCLOAK_ADMIN_CLIENT_ID")
  secret ← get_or_throw env (codes "KEYCLOAK_ADMIN_CLIENT_SECRET")
  some (record {
    base_url = base_url;
    realm = realm;
    login_client_id = login_client;
    admin_client_id = admin_client;
    admin_client_secret = secret;
  })

module _ (joi : Joi) (env valid : Env)
    (accepted : joi.validate config_schema env ≡ some valid) where
  -- Once Joi has accepted the environment, and whichever provider is selected, every setting can be
  -- read: the options of Redis, of Kafka and of the logger, those of the JWT strategy, and the settings
  -- of the Keycloak service; none of the `getOrThrow` calls throws.
  pub settings_read :
      (p : Provider)
      → (redis_options valid ≢ none)
        × (kafka_options valid ≢ none)
        × (logger_options valid ≢ none)
        × (strategy_options p valid ≢ none)
        × (keycloak_config valid ≢ none)
  unfolding config_schema strategy_options keycloak_config
  settings_read p =
      let (
        node_env,
        (level, (kind, (host, (port, (password, (broker, (user, (secret, auth)))))))),
      ) =
        schema-IsRead joi env valid accepted in
      let (uri, (iss, (aud, (url, (realm, (login, (admin, (key, rest)))))))) = auth in
      let (redis, kafka, logger) = startup_reads joi env valid accepted in
      (
        redis,
        kafka,
        logger,
        strategy p uri iss aud,
        bind-ne-none _ _ url (λ u. bind-ne-none _ _ realm (λ r.
            bind-ne-none _ _ login
              (λ l. bind-ne-none _ _ admin (λ a. bind-ne-none _ _ key (λ k e. cc))))),
      )
    where
      strategy :
          (p : Provider)
          → valid (codes "KEYCLOAK_JWKS_URI") ≢ none
          → valid (codes "KEYCLOAK_ISSUER") ≢ none
          → valid (codes "KEYCLOAK_AUDIENCE") ≢ none
          → strategy_options p valid ≢ none
      strategy keycloak uri iss aud = bind-ne-none _ _ uri (λ u.
          bind-ne-none _ _ iss
            (λ i. bind-ne-none _ _ (bind-ne-none _ _ aud (λ a e. cc)) (λ a e. cc)))
      strategy entra_id uri iss aud = λ e. cc
