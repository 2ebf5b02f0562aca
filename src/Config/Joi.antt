-- ===== src/Config/Joi.antt =====
-- What the application relies on of Joi, by its documentation.
use redis_api.Common.{◌≡◌, ◌≢◌, ◌⊎◌, Option, none, some, List, [], ◌∷◌, if◌then◌else◌}
use redis_api.Text.{Str, ◌===◌}
use redis_api.Config.{Env, Presence, required, defaulted, string, one_of, Rule}

module _ {A : Type 0} where
  abbrev pub In : A → List A → Type 0
  In a [] = ⊥
  In a (x ∷ xs) = (x ≡ a) ⊎ In a xs

-- The rule of a key.
unfoldable pub rule_of : Str → List Rule → Option Rule
rule_of key [] = none
rule_of key (r ∷ rules) = if r.key === key then some r else rule_of key rules

-- A value, or else the default that there is.
abbrev pub value_or : Option Str → Presence → Option Str
value_or (some v) p = some v
value_or none (defaulted d) = some d
value_or none _ = none

-- `validate` is `none` where the environment breaks a rule, so that the application does not start;
-- else the environment with the defaults filled in.
pub record Joi : Type 1 where
  pub validate : List Rule → Env → Option Env
  -- a required key has a value
  pub validate-required :
      (rules : List Rule) (env valid : Env) (r : Rule)
      → In r rules
      → validate rules env ≡ some valid
      → r.presence ≡ required
      → valid r.key ≢ none
  -- and so has a key with a default
  pub validate-defaulted :
      (rules : List Rule) (env valid : Env) (r : Rule) (d : Str)
      → In r rules
      → validate rules env ≡ some valid
      → r.presence ≡ defaulted d
      → valid r.key ≢ none
  -- a value is one of the values of `valid`
  pub validate-one_of :
      (rules : List Rule) (env valid : Env) (r : Rule) (values : List Str) (v : Str)
      → In r rules
      → validate rules env ≡ some valid
      → r.kind ≡ one_of values
      → valid r.key ≡ some v
      → In v values
  -- a text is taken as it is, and a default where there is none
  pub validate-string :
      (rules : List Rule) (env valid : Env) (key : Str) (r : Rule)
      → rule_of key rules ≡ some r
      → r.kind ≡ string
      → validate rules env ≡ some valid
      → valid key ≡ value_or (env key) r.presence
