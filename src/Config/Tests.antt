-- ===== src/Config/Tests.antt =====
-- A validator in memory, with the documented behaviour of Joi, and an environment that it accepts.
use mathlib.Core.Path.{subst}
use redis_api.Common.{
  ◌≡◌, ◌≢◌, refl, inl, inr, ◌&&◌, ◌||◌, Bool, true, false, Option, none, some, List, [], ◌∷◌, all,
  arith, if◌then◌else◌,
}
use redis_api.Text.{Str, codes, ◌===◌, ===_iff}
use redis_api.Config.{
  Env, Presence, required, defaulted, optional, Kind, string, string_or_empty, positive_integer,
  one_of, Rule, config_schema, redis_options, KafkaOptions, kafka_options, logger_options,
}
use redis_api.Config.Joi.{Joi, In, rule_of, value_or}
use redis_api.Auth.Guards.{entra_id}
use redis_api.Orders.Settings.{or_else, consumer_options, same_broker}
use redis_api.Auth.Strategy.{strategy_options, keycloak_config, settings_read}

fill : List Rule → Env → Env
fill [] env k = env k
fill (r ∷ rs) env k = if r.key === k then value_or (env k) r.presence else fill rs env k

is_some : Option Str → Bool
is_some none = false
is_some (some v) = true

member : Str → List Str → Bool
member v [] = false
member v (x ∷ xs) = x === v || member v xs

present_ok : Presence → Option Str → Bool
unfolding is_some
present_ok optional v = true
present_ok _ v = is_some v

kind_ok : Kind → Option Str → Bool
unfolding member
kind_ok (one_of vs) (some v) = member v vs
kind_ok _ v = true

rule_ok : Env → Rule → Bool
unfolding present_ok kind_ok
rule_ok env r = present_ok r.presence (env r.key) && kind_ok r.kind (env r.key)

check : List Rule → Env → Option Env
unfolding fill rule_ok
check rules env = if all (rule_ok (fill rules env)) rules then some (fill rules env) else none

rule_ok-of_all :
    (p : Rule → Bool) (r : Rule) (rules : List Rule) → In r rules → all p rules ≡ true → p r ≡ true
rule_ok-of_all p r [] i h = absurd i
rule_ok-of_all p r (x ∷ xs) (inl e) h = rw (← e) (ground arith)
rule_ok-of_all p r (x ∷ xs) (inr i) h = rule_ok-of_all p r xs i (ground arith)

guarded :
    (b : Bool) (x valid : Env)
    → (if b then some x else none) ≡ some valid
    → (b ≡ true) × (x ≡ valid)
guarded true x valid e = (refl, cc)
guarded false x valid e = (cc, cc)

check-ok :
    (rules : List Rule) (env valid : Env) (r : Rule)
    → In r rules
    → check rules env ≡ some valid
    → rule_ok valid r ≡ true
unfolding check
check-ok rules env valid r i e =
    let (ok, same) = guarded (all (rule_ok (fill rules env)) rules) (fill rules env) valid e in
    subst (λ v. rule_ok v r ≡ true) same (rule_ok-of_all (rule_ok (fill rules env)) r rules i ok)

In-of_member : (v : Str) (xs : List Str) → member v xs ≡ true → In v xs
unfolding member
In-of_member v [] h = cc
In-of_member v (x ∷ xs) h = ground (arith, ===_iff x v, In-of_member v xs)

present_ok-some : (p : Presence) (v : Option Str) → present_ok p v ≡ true → p ≢ optional → v ≢ none
unfolding present_ok is_some
present_ok-some required none h ne = cc
present_ok-some required (some v) h ne = λ e. cc
present_ok-some (defaulted d) none h ne = cc
present_ok-some (defaulted d) (some v) h ne = λ e. cc
present_ok-some optional v h ne = absurd (ne refl)

rule-present :
    (rules : List Rule) (env valid : Env) (r : Rule)
    → In r rules
    → check rules env ≡ some valid
    → r.presence ≢ optional
    → valid r.key ≢ none
unfolding rule_ok
rule-present rules env valid r i e ne =
    present_ok-some r.presence (valid r.key)
      (let ok = check-ok rules env valid r i e in ground arith) ne

kind-ok :
    (rules : List Rule) (env valid : Env) (r : Rule)
    → In r rules
    → check rules env ≡ some valid
    → kind_ok r.kind (valid r.key) ≡ true
unfolding rule_ok
kind-ok rules env valid r i e = let ok = check-ok rules env valid r i e in ground arith

one_of-member :
    (k : Kind) (v : Str) (vs : List Str) (o : Option Str)
    → kind_ok k o ≡ true
    → k ≡ one_of vs
    → o ≡ some v
    → member v vs ≡ true
unfolding kind_ok
one_of-member (one_of ws) v vs (some u) h e f = let (a, b) = same in rw (← a, ← b) h
  where
    same : (u ≡ v) × (ws ≡ vs)
    same = (cc, cc)
one_of-member (one_of ws) v vs none h e f = cc
one_of-member string v vs o h e f = cc
one_of-member string_or_empty v vs o h e f = cc
one_of-member positive_integer v vs o h e f = cc

fill-rule :
    (rules : List Rule) (env : Env) (key : Str) (r : Rule)
    → rule_of key rules ≡ some r
    → fill rules env key ≡ value_or (env key) r.presence
unfolding fill rule_of
fill-rule [] env key r h = cc
fill-rule (x ∷ rules) env key r h = ground (arith, fill-rule rules env key r)

check-string :
    (rules : List Rule) (env valid : Env) (key : Str) (r : Rule)
    → rule_of key rules ≡ some r
    → check rules env ≡ some valid
    → valid key ≡ value_or (env key) r.presence
unfolding check
check-string rules env valid key r h e =
    let (ok, same) = guarded (all (rule_ok (fill rules env)) rules) (fill rules env) valid e in
    subst (λ v. v key ≡ value_or (env key) r.presence) same (fill-rule rules env key r h)

required-ne : (r : Rule) → r.presence ≡ required → r.presence ≢ optional
required-ne r p q = cc

defaulted-ne : (r : Rule) (d : Str) → r.presence ≡ defaulted d → r.presence ≢ optional
defaulted-ne r d p q = cc

abbrev checker : Joi
checker = record {
  validate = check;
  validate-required =
      λ rules env valid r i e p. rule-present rules env valid r i e (required-ne r p);
  validate-defaulted =
      λ rules env valid r d i e p. rule-present rules env valid r i e (defaulted-ne r d p);
  validate-string = λ rules env valid key r h k e. check-string rules env valid key r h e;
  validate-one_of = λ rules env valid r vs v i e k s.
      In-of_member v vs
        (one_of-member r.kind v vs (valid r.key) (kind-ok rules env valid r i e) k s);
}

-- The three secrets that have no default.
abbrev secrets : Env
secrets k =
    if k === codes "REDIS_PASSWORD"
      || k === codes "KAFKA_PASSWORD"
      || k === codes "KEYCLOAK_ADMIN_CLIENT_SECRET"
    then some (codes "s")
    else none

accepted : check config_schema secrets ≡ some (fill config_schema secrets)
unfolding check rule_ok fill present_ok kind_ok config_schema ◌===◌
accepted = refl

settings_read_example :
    (redis_options (fill config_schema secrets) ≢ none)
    × (kafka_options (fill config_schema secrets) ≢ none)
    × (logger_options (fill config_schema secrets) ≢ none)
    × (strategy_options entra_id (fill config_schema secrets) ≢ none)
    × (keycloak_config (fill config_schema secrets) ≢ none)
settings_read_example = settings_read checker secrets (fill config_schema secrets) accepted entra_id

abbrev client : KafkaOptions
client = record {
  client_id = codes "redis-api-producer";
  brokers = codes "localhost:9092" ∷ [];
  username = codes "admin";
  password = codes "s";
}

client_read : kafka_options (fill config_schema secrets) ≡ some client
unfolding kafka_options fill config_schema ◌===◌
client_read = refl

same_broker_example :
    ((consumer_options secrets).brokers ≡ client.brokers)
    × ((consumer_options secrets).password ≡ client.password)
    × (client.username ≡ or_else (secrets (codes "KAFKA_USER")) (codes "admin"))
    × ((consumer_options secrets).username ≡ or_else (secrets (codes "KAFKA_USER")) [])
same_broker_example =
    same_broker checker secrets (fill config_schema secrets) client accepted client_read
