-- ===== src/Config/Startup.antt =====
-- What the rest of the application can read once src/config/config.schema.ts has let it start.
use redis_api.Common.{◌≡◌, ◌≢◌, refl, inl, inr, Option, none, some, List, [], ◌∷◌, All}
use redis_api.Text.{Str}
use redis_api.Config.{
  Env, Presence, required, defaulted, optional, Rule, config_schema, redis_options, kafka_options,
  logger_options, ◌>>=◌,
}
use redis_api.Config.Joi.{Joi, In}

All-of_In {κ} : {A : Type 0} (P : A → Type κ) (xs : List A) → ((a : A) → In a xs → P a) → All P xs
All-of_In P [] h = tt
All-of_In P (x ∷ xs) h = (h x (inl refl), All-of_In P xs (λ a i. h a (inr i)))

-- A key that is required or has a default can be read.
abbrev IsRead : Env → Str → Presence → Type 0
IsRead valid key required = valid key ≢ none
IsRead valid key (defaulted d) = valid key ≢ none
IsRead valid key optional = Unit

module _ (joi : Joi) (env valid : Env)
    (accepted : joi.validate config_schema env ≡ some valid) where
  rule-IsRead :
      (r : Rule) (p : Presence) → r.presence ≡ p → In r config_schema → IsRead valid r.key p
  rule-IsRead r required e i = joi.validate-required config_schema env valid r i accepted e
  rule-IsRead r (defaulted d) e i = joi.validate-defaulted config_schema env valid r d i accepted e
  rule-IsRead r optional e i = tt

  pub schema-IsRead : All (λ (r : Rule). IsRead valid r.key r.presence) config_schema
  schema-IsRead =
      All-of_In (λ (r : Rule). IsRead valid r.key r.presence) config_schema
        (λ r i. rule-IsRead r r.presence refl i)

-- A chain of reads of values that are there has a value.
pub bind-ne-none :
    {A B : Type 0} (o : Option A) (f : A → Option B)
    → o ≢ none
    → ((a : A) → f a ≢ none)
    → (o >>= f) ≢ none
bind-ne-none none f h k = absurd (h refl)
bind-ne-none (some a) f h k = k a

module _ (joi : Joi) (env valid : Env)
    (accepted : joi.validate config_schema env ≡ some valid) where
  -- Once Joi has accepted the environment, the options of Redis, of Kafka and of the logger can be
  -- read: none of the `getOrThrow` calls throws.
  pub startup_reads :
      (redis_options valid ≢ none) × (kafka_options valid ≢ none) × (logger_options valid ≢ none)
  unfolding config_schema redis_options kafka_options logger_options
  startup_reads =
      let (
        node_env,
        (level, (kind, (host, (port, (password, (broker, (user, (secret, rest)))))))),
      ) =
        schema-IsRead joi env valid accepted in
      (
        bind-ne-none _ _ host
            (λ h. bind-ne-none _ _ port (λ p. bind-ne-none _ _ password (λ s e. cc))),
        bind-ne-none _ _ broker
            (λ h. bind-ne-none _ _ user (λ p. bind-ne-none _ _ secret (λ s e. cc))),
        bind-ne-none _ _ level (λ l. bind-ne-none _ _ node_env (λ n e. cc)),
      )
