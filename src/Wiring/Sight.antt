-- ===== src/Wiring/Sight.antt =====
-- The tokens that the modules of src and of order-consumer/src see.
use redis_api.Common.{◌≡◌, refl, Bool, true, false, ◌||◌, List, [], ◌∷◌, ◌++◌, All, map}
use redis_api.Text.{Str, codes, ◌===◌}
use redis_api.Wiring.{
  Component, ModuleName, app_module, auth_module, redis_module, kafka_module, product_module,
  consumer_app_module, order_module, config_service, reflector, kafka_client, order_repository,
  logger_of, declared, components,
}

-- What NestJS and the libraries offer: the global tokens, and those that a library module exports.
record Nest : Type 0 where
  global : Str → Bool
  exported : Str → Str → Bool
  config_lem : global config_service ≡ true
  reflector_lem : global reflector ≡ true
  logger_lem : (name : Str) → global (logger_of name) ≡ true
  client_lem : exported (codes "ClientsModule") kafka_client ≡ true
  repository_lem : exported (codes "TypeOrmModule") order_repository ≡ true

abbrev includes : Str → List Str → Bool
includes token [] = false
includes token (t ∷ ts) = t === token || includes token ts

-- A module sees its own providers, what the modules that it imports provide and export, what the
-- library modules that it imports export, and the global tokens.
data Sees (n : Nest) (m : ModuleName) (token : Str) : Type 0 where
  own :
      includes token (map (λ (c : Component). c.token) (declared m).providers) ≡ true
      → Sees n m token
  imported :
      (before : List ModuleName) (i : ModuleName) (after : List ModuleName)
      → (declared m).imports ≡ before ++ (i ∷ after)
      → includes token (map (λ (c : Component). c.token) (declared i).providers) ≡ true
      → includes token (declared i).exports ≡ true
      → Sees n m token
  of_library :
      (l : Str)
      → includes l (declared m).libraries ≡ true
      → n.exported l token ≡ true
      → Sees n m token
  everywhere : n.global token ≡ true → Sees n m token

module _ (n : Nest) where
  Wired : ModuleName → Type 0
  Wired m = All (λ (c : Component). All (Sees n m) c.needs) (components m)

  -- In every module, whatever a component asks for is seen there, so that NestJS can build it.
  declared-Wired : (m : ModuleName) → Wired m
  unfolding Wired ◌===◌
  declared-Wired app_module = (
    tt,
    (
      (everywhere n.reflector_lem, tt),
      ((everywhere n.reflector_lem, (imported [] auth_module _ refl refl refl, tt)), (tt, tt)),
    ),
  )
  declared-Wired auth_module = (
    (everywhere (n.logger_lem _), (own refl, (own refl, tt))),
    (
      (everywhere n.config_lem, tt),
      (
        (everywhere n.config_lem, tt),
        (
          (everywhere n.config_lem, (own refl, (own refl, tt))),
          (
            (everywhere (n.logger_lem _), (everywhere n.config_lem, tt)),
            (
              tt,
              (
                (everywhere n.config_lem, (own refl, (own refl, tt))),
                (
                  (own refl, tt),
                  (
                    (everywhere n.reflector_lem, tt),
                    (
                      (everywhere n.reflector_lem, (own refl, tt)),
                      (
                        (imported [] redis_module _ refl refl refl, tt),
                        ((imported [] redis_module _ refl refl refl, tt), tt),
                      ),
                    ),
                  ),
                ),
              ),
            ),
          ),
        ),
      ),
    ),
  )
  declared-Wired redis_module = ((everywhere (n.logger_lem _), (everywhere n.config_lem, tt)), tt)
  declared-Wired kafka_module = ((of_library (codes "ClientsModule") refl n.client_lem, tt), tt)
  declared-Wired product_module = (
    (
      everywhere (n.logger_lem _),
      (
        imported [] redis_module _ refl refl refl,
        (imported (redis_module ∷ []) kafka_module _ refl refl refl, tt),
      ),
    ),
    ((imported [] redis_module _ refl refl refl, tt), tt),
  )
  declared-Wired consumer_app_module = tt
  declared-Wired order_module = (
    (everywhere (n.logger_lem _), (own refl, tt)),
    (
      (everywhere (n.logger_lem _), (of_library (codes "TypeOrmModule") refl n.repository_lem, tt)),
      tt,
    ),
  )
